-- ===== src/Queue/Scripts.antt =====
-- The keys of app/async_queue.py and its two Lua scripts, which Redis runs as one atomic unit each.
use Prim.Native.String.{◌++◌ as append}
use kernexys.Prelude.{
  ℕ, ◌+◌, String, Bool, false, ◌||◌, Option, none, some, List, [], ◌∷◌, ◌==◌, if◌then◌else◌, leb,
  eqb, ℤ, pos, negsuc, ◌≡◌, ◌<◌,
}
use kernexys.Prelude.Dict.{lookup}
use kernexys.Json.{Codec}
use kernexys.Redis.{Redis}

-- The clock of the worker, in ticks, and the text form of its readings.
pub record Clock : Type 0 where
  -- ticks in a second
  pub second : ℕ
  -- repr(time) of Python, and tonumber(text) of Lua
  pub repr : ℕ → String
  pub tonumber : String → Option ℕ
  pub second_pos : 0 < second
  pub tonumber-repr : (t : ℕ) → tonumber (repr t) ≡ some t

-- What the queue uses of the world around it.
pub record Env : Type 1 where
  pub redis : Redis
  pub codec : Codec
  pub clock : Clock

unfoldable pub queue_key : String
queue_key = "kernexys:inference:queued"

unfoldable pub processing_key : String
processing_key = "kernexys:inference:processing"

unfoldable pub recovery_lock_key : String
recovery_lock_key = "kernexys:inference:recovery-lock"

-- JOB_PREFIX + job_id
unfoldable pub job_key : String → String
job_key job_id = append "kernexys:inference:job:" job_id

-- status in {"succeeded", "failed"}
abbrev pub is_terminal : String → Bool
is_terminal status = (status == "succeeded") || (status == "failed")

abbrev pub is_value : String → Option String → Bool
is_value x none = false
is_value x (some y) = y == x

-- tonumber(text), with 0 for what is no number
abbrev pub number_or_zero : Option ℕ → ℕ
number_or_zero none = 0
number_or_zero (some n) = n

module _ (e : Env) where
  -- HGET key field
  abbrev pub hget : String → String → e.redis.Store → Option String
  hget key f s = lookup f (e.redis.hgetall key s)

  -- _ENQUEUE_SCRIPT
  unfoldable pub enqueue_script :
      String → String → String → ℕ → ℕ → String → e.redis.Store → ℤ × e.redis.Store
  enqueue_script job queue payload capacity ttl job_id s =
      if e.redis.exists job s
      then (if is_value payload (hget job "payload" s) then (pos 0, s) else (negsuc 1, s))
      else if leb capacity (e.redis.llen queue s)
      then (negsuc 0, s)
      else (
        pos 1,
        e.redis.rpush queue job_id (
            e.redis.expire job ttl
              (e.redis.hset job (("status", "queued") ∷ ("payload", payload) ∷ []) s)),
      )

  -- the requeue at the end of the loop body of _RECOVER_PROCESSING_SCRIPT
  unfoldable pub requeue_stranded : String → ℕ × e.redis.Store → ℕ × e.redis.Store
  requeue_stranded job_id (recovered, s) =
      let (removed, s') = e.redis.lrem processing_key job_id s in
      if eqb removed 1
      then (
        recovered + 1,
        e.redis.rpush queue_key job_id (
            e.redis.hdel (job_key job_id) "claimed_at"
              (e.redis.hset (job_key job_id) (("status", "queued") ∷ []) s')),
      )
      else (recovered, s')

  -- the branch for a job that is neither gone nor terminal, by its claimed_at
  unfoldable pub recover_claimed :
      Option String → String → String → String → ℕ × e.redis.Store → ℕ × e.redis.Store
  unfolding requeue_stranded
  recover_claimed none before now job_id (recovered, s) =
      (recovered, e.redis.hset (job_key job_id) (("claimed_at", now) ∷ []) s)
  recover_claimed (some claimed_at) before now job_id (recovered, s) =
      if leb (number_or_zero (e.clock.tonumber claimed_at))
        (number_or_zero (e.clock.tonumber before))
      then requeue_stranded job_id (recovered, s)
      else (recovered, s)

  -- the loop body, by the job's status
  unfoldable pub recover_entry :
      Option String → String → String → String → ℕ × e.redis.Store → ℕ × e.redis.Store
  unfolding recover_claimed
  recover_entry none before now job_id (recovered, s) =
      (recovered, (e.redis.lrem processing_key job_id s).1)
  recover_entry (some status) before now job_id (recovered, s) =
      if is_terminal status
      then (recovered, (e.redis.lrem processing_key job_id s).1)
      else recover_claimed (hget (job_key job_id) "claimed_at" s) before now job_id (recovered, s)

  -- for i = 1, #ids do ... end
  unfoldable pub recover_each :
      List String → String → String → ℕ × e.redis.Store → ℕ × e.redis.Store
  unfolding recover_entry
  recover_each [] before now (recovered, s) = (recovered, s)
  recover_each (job_id ∷ ids) before now (recovered, s) =
      recover_each ids before now
        (recover_entry (hget (job_key job_id) "status" s) before now job_id (recovered, s))

  -- _RECOVER_PROCESSING_SCRIPT
  unfoldable pub recover_processing_script : String → String → e.redis.Store → ℕ × e.redis.Store
  unfolding recover_each
  recover_processing_script before now s =
      recover_each (e.redis.lrange processing_key s) before now (0, s)
