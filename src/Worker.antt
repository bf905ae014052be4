-- ===== src/Worker.antt =====
-- app/worker.py: a worker takes jobs from the queue, posts them to their runtime and settles them.
-- A loop is given the readings of the clock, one for each round that it makes before it is stopped.
pub mod Turn
pub mod Drained
mod Tests
use Prim.Native.String.{◌++◌ as append, ◌∷◌ as char, [] as blank}
use Prim.Native.Char.{code}
use kernexys.Prelude.{
  ℕ, ◌+◌, ◌*◌, max, String, Bool, true, false, ◌&&◌, Option, none, some, List, [], ◌∷◌, Result, ok,
  err, ◌==◌, eqb, if◌then◌else◌,
}
use kernexys.Json.{Json, null, obj, str, Fields, field, end, member}
use kernexys.Queue.{Config, ClaimedJob, claim, finish, recover_processing}
use kernexys.Queue.Scripts.{Env}
use kernexys.Queue.Effects.{Action, World, AsyncQueueError, pure, ◌>>=◌, ◌>>◌}

-- text.rstrip("/")
unfoldable pub rstrip : String → String
rstrip blank = ""
rstrip (char c s) =
    let rest : String = rstrip s in if (rest == "") && eqb (code c) b'/' then "" else char c rest

-- What the POST comes to: a status with the JSON of the body, if it is JSON, or a timeout or
-- aiohttp.ClientError.
pub data Posted : Type 0 where
  responded : ℕ → Option Json → Posted
  failed : Posted

-- The attempt in the try block. `crashes` is an exception that is not caught: the payload is no
-- dict, or its endpoint no text.
pub data Attempt : Type 0 where
  succeeds : Option Json → Attempt
  fails : Attempt
  crashes : Attempt

-- Python's None is no result.
abbrev pub as_result : Json → Option Json
as_result null = none
as_result other = some other

abbrev pub judged : Posted → Attempt
judged (responded status none) = fails
judged (responded status (some body)) = if eqb status 200 then succeeds (as_result body) else fails
judged failed = fails

pub data Ended : Type 0 where
  done : Ended
  crashed : Ended

module _ (runtime : String → Json → Posted) where
  abbrev pub posted : Option Json → Option Json → Attempt
  posted none text = fails
  posted (some (str endpoint)) none = fails
  posted (some (str endpoint)) (some text) =
      judged (runtime (append (rstrip endpoint) "/v1/infer") (obj (field "text" text end)))
  posted (some other) text = crashes

  unfoldable pub attempt : Json → Attempt
  unfolding rstrip
  attempt (obj payload) = posted (member "endpoint" payload) (member "text" payload)
  attempt other = crashes

  module _ (e : Env) (q : Config) where
    abbrev pub settled : String → Attempt → Action e.redis.Store Ended
    settled job_id (succeeds result) = do finish e q job_id "succeeded" result none; pure done
    settled job_id fails = do
      finish e q job_id "failed" none (some "The model runtime request failed.")
      pure done
    settled job_id crashes = pure crashed

    unfoldable pub process_job : ClaimedJob → Action e.redis.Store Ended
    unfolding finish attempt
    process_job job = settled job.job_id (attempt job.payload)

    abbrev pub process_claimed : Option ClaimedJob → Action e.redis.Store Ended
    process_claimed none = pure done
    process_claimed (some job) = process_job job

    -- one round of consume, up to the exception handler
    unfoldable pub turn : ℕ → Action e.redis.Store Ended
    unfolding claim process_job
    turn now = do job ← claim e q now; process_claimed job

    -- An AsyncQueueError is logged; any other exception ends the loop.
    abbrev pub continued :
        Result AsyncQueueError Ended
        → World e.redis.Store
        → Ended × World e.redis.Store
        → Ended × World e.redis.Store
    continued (ok done) w rest = rest
    continued (ok crashed) w rest = (crashed, w)
    continued (err x) w rest = rest

    unfoldable pub consume : List ℕ → World e.redis.Store → Ended × World e.redis.Store
    unfolding turn
    consume [] w = (done, w)
    consume (now ∷ later) w =
        let (r, w') = turn now w in
        let rest : Ended × World e.redis.Store = consume later w' in continued r w' rest

-- What the sweeps recovered, with none for one that failed.
module _ (e : Env) (q : Config) where
  abbrev pub recovered : Result AsyncQueueError ℕ → Option ℕ
  recovered (ok n) = some n
  recovered (err x) = none

  unfoldable pub recover_periodically :
      List ℕ → World e.redis.Store → List (Option ℕ) × World e.redis.Store
  unfolding recover_processing
  recover_periodically [] w = ([], w)
  recover_periodically (now ∷ later) w =
      let (r, w') = recover_processing e q now w in
      let (found, end_world) = recover_periodically later w' in (recovered r ∷ found, end_world)

-- The queue that run_worker makes of its settings.
unfoldable pub worker_config : ℕ → ℕ → ℕ → Config
worker_config async_inference_timeout_seconds async_queue_capacity async_job_ttl_seconds = record {
  capacity = async_queue_capacity;
  job_ttl_seconds = async_job_ttl_seconds;
  recovery_lock_seconds = max (async_inference_timeout_seconds * 2) 30;
}
