-- ===== src/Queue.antt =====
-- app/async_queue.py: the job queue in Redis. Each method is an action over the store that may raise
-- AsyncQueueError; each Redis call in it is answered, refused, or executed with its reply lost.
pub mod Scripts
pub mod Effects
pub mod Keys
pub mod Reading
pub mod Enqueue
pub mod Repeat
pub mod Claim
pub mod Finish
pub mod Sweep
pub mod Balance
pub mod Recover
pub mod Swept
pub mod Steps
pub mod Faults
pub mod Kept
pub mod Tracked
pub mod Delivery
pub mod Race
pub mod Sample
mod Tests
use kernexys.Prelude.{
  ℕ, ◌-◌, ◌*◌, String, Bool, true, false, not, Option, none, some, List, [], ◌∷◌, ◌++◌, pos, negsuc,
  eq_ℤ, if◌then◌else◌,
}
use kernexys.Prelude.Dict.{Dict, lookup, nonempty}
use kernexys.Json.{Json}
use Scripts.{
  Env, queue_key, processing_key, recovery_lock_key, job_key, is_terminal, enqueue_script,
  recover_processing_script,
}
use Effects.{Action, unavailable, invalid, pure, raise, call, ◌>>=◌, ◌>>◌}

pub record EnqueueResult : Type 0 where
  pub created : Bool
  pub full : Bool
  pub conflict : Bool

pub record ClaimedJob : Type 0 where
  pub job_id : String
  pub payload : Json

-- The fields of RedisInferenceQueue besides its client.
pub record Config : Type 0 where
  pub capacity : ℕ
  pub job_ttl_seconds : ℕ
  pub recovery_lock_seconds : ℕ

-- not job or job.get("status") in {"succeeded", "failed"}
abbrev pub is_settled : Dict String → Bool
is_settled job =
    if nonempty job
    then (elim (lookup "status" job) [ none ↦ false | some s ↦ is_terminal s ])
    else true

abbrev pub optional : String → Option String → Dict String
optional f none = []
optional f (some x) = (f, x) ∷ []

module _ (e : Env) (q : Config) where
  unfoldable pub check_ready : Action e.redis.Store (Unit {0})
  check_ready = call unavailable (λ s. (tt, s))

  unfoldable pub enqueue : String → Json → Action e.redis.Store EnqueueResult
  enqueue job_id payload = do
    value ← call unavailable (
        enqueue_script e (job_key job_id) queue_key (e.codec.dumps payload) q.capacity
          q.job_ttl_seconds job_id)
    pure (record {
      created = eq_ℤ value (pos 1);
      full = eq_ℤ value (negsuc 0);
      conflict = eq_ℤ value (negsuc 1);
    })

  unfoldable pub get : String → Action e.redis.Store (Option (Dict String))
  get job_id = do
    value ← call unavailable (λ s. (e.redis.hgetall (job_key job_id) s, s))
    pure (if nonempty value then some value else none)

  -- the store after claim's HSET
  unfoldable pub stamp : String → ℕ → e.redis.Store → e.redis.Store
  stamp job_id now s =
      e.redis.hset (job_key job_id) (("status", "running") ∷ ("claimed_at", e.clock.repr now) ∷ [])
        s

  -- ClaimedJob(job_id=job_id, payload=json.loads(job["payload"]))
  abbrev pub decode : String → Option Json → Action e.redis.Store (Option ClaimedJob)
  decode job_id none = raise invalid
  decode job_id (some payload) = pure (some (record { job_id = job_id; payload = payload }))

  abbrev pub load_payload : String → Option String → Action e.redis.Store (Option ClaimedJob)
  load_payload job_id none = raise invalid
  load_payload job_id (some text) = decode job_id (e.codec.loads text)

  -- the rest of claim, once BLMOVE has answered
  abbrev pub claim_popped : ℕ → Option String → Action e.redis.Store (Option ClaimedJob)
  claim_popped now none = pure none
  claim_popped now (some job_id) = do
    job ← call invalid (λ s. (e.redis.hgetall (job_key job_id) s, s))
    if is_settled job
        then (do call invalid (e.redis.lrem processing_key job_id); pure none)
        else (do
          call invalid (λ s. (tt, stamp job_id now s))
          load_payload job_id (lookup "payload" job))

  -- `now` is the reading of time.time() at the stamp.
  unfoldable pub claim : ℕ → Action e.redis.Store (Option ClaimedJob)
  unfolding stamp
  claim now = do
    job_id ← call invalid (e.redis.blmove queue_key processing_key)
    claim_popped now job_id

  -- the MULTI/EXEC block of finish
  unfoldable pub settle : String → Dict String → e.redis.Store → e.redis.Store
  settle job_id mapping s =
      (e.redis.lrem processing_key job_id (
        e.redis.expire (job_key job_id) q.job_ttl_seconds
          (e.redis.hset (job_key job_id) mapping s))).1

  abbrev pub dumped : Option Json → Option String
  dumped none = none
  dumped (some result) = some (e.codec.dumps result)

  unfoldable pub finish :
      String → String → Option Json → Option String → Action e.redis.Store (Unit {0})
  unfolding settle
  finish job_id status result error = call unavailable λ s. (
    tt,
    settle job_id
        (("status", status) ∷ (optional "result" (dumped result) ++ optional "error" error)) s,
  )

  -- `now` is the reading of time.time() once the lock is held.
  unfoldable pub recover_processing : ℕ → Action e.redis.Store ℕ
  recover_processing now = do
    acquired ← call unavailable (e.redis.set_nx recovery_lock_key "1" q.recovery_lock_seconds)
    if acquired
        then call unavailable (
            recover_processing_script e
              (e.clock.repr (now - q.recovery_lock_seconds * e.clock.second)) (e.clock.repr now))
        else pure 0
