-- ===== src/Queue/Recover.antt =====
-- recover_processing: what a sweep does to a settled, a young, an unstamped and a stranded job, how
-- many jobs it reports, and what the recovery lock keeps out.
use kernexys.Prelude.{
  ℕ, zero, suc, ◌+◌, ◌-◌, ◌*◌, ◌<◌, ◌≤◌, ◌≡◌, refl, ap, ◌∙◌, String, Bool, true, false, Option,
  none, some, arith, count, length, ok, Option-cases, ◌⊎◌, ◌≢◌, inl, inr,
}
use kernexys.Redis.Laws.{field-set_nx, lrange-set_nx}
use kernexys.Queue.{Config, recover_processing}
use kernexys.Queue.Scripts.{
  Env, queue_key, processing_key, recovery_lock_key, job_key, is_terminal, number_or_zero,
  recover_processing_script,
}
use kernexys.Queue.Reading.{queued, processing, job, calm}
use kernexys.Queue.Balance.{IsBalanced, recover-IsBalanced}
use kernexys.Queue.Sweep.{
  JobState, sweep_job, iterate, job_state, state-recover_processing, unlink_job, requeue_job,
}

-- The record is gone or its status is terminal.
abbrev pub is_over : Option String → Bool
is_over none = true
is_over (some status) = is_terminal status

-- The claim's time as the script reads it.
abbrev pub claim_time : (String → Option ℕ) → String → ℕ
claim_time tonumber t = number_or_zero (tonumber t)

module _ (tonumber : String → Option ℕ) (before : ℕ) (stamp : String) where
  abbrev step : JobState → JobState
  step = sweep_job tonumber before stamp

  pub step_over : (j : JobState) → is_over j.status ≡ true → step j ≡ unlink_job j
  unfolding sweep_job
  step_over j h = ground arith

  pub step_young :
      (j : JobState) (t : String)
      → is_over j.status ≡ false
      → j.claimed_at ≡ some t
      → before < claim_time tonumber t
      → step j ≡ j
  unfolding sweep_job
  step_young j t a b c = ground arith

  pub step_unstamped :
      (j : JobState)
      → is_over j.status ≡ false
      → j.claimed_at ≡ none
      → step j ≡ record j { claimed_at = some stamp }
  unfolding sweep_job
  step_unstamped j a b = ground arith

  pub step_stranded :
      (j : JobState) (t : String)
      → is_over j.status ≡ false
      → j.claimed_at ≡ some t
      → claim_time tonumber t ≤ before
      → step j ≡ requeue_job j.held j
  unfolding sweep_job
  step_stranded j t a b c = ground arith

  -- A settled job only loses its entries in the processing list.
  pub iterate_over :
      (n : ℕ) (j : JobState)
      → is_over j.status ≡ true
      → iterate n step j ≡ record j { held = j.held - n }
  iterate_over zero j h = ground arith
  iterate_over (suc n) j h = rw (step_over j h) (iterate_over n (unlink_job j) h ∙ ground arith)

  pub iterate_young :
      (n : ℕ) (j : JobState) (t : String)
      → is_over j.status ≡ false
      → j.claimed_at ≡ some t
      → before < claim_time tonumber t
      → iterate n step j ≡ j
  iterate_young zero j t a b c = refl
  iterate_young (suc n) j t a b c = rw (step_young j t a b c) (iterate_young n j t a b c)

-- The latest claim time that a sweep at `now` takes for stranded.
abbrev pub lease_start : Env → Config → ℕ → ℕ
lease_start e q now = now - q.recovery_lock_seconds * e.clock.second

-- One step of a job in a sweep at `now`.
abbrev pub sweep_at : Env → Config → ℕ → JobState → JobState
sweep_at e q now = sweep_job e.clock.tonumber (lease_start e q now) (e.clock.repr now)

-- A sweep that reported `n`: each job took its step once for each of its entries in the processing
-- list, and `n` ids went over to the queue.
pub record IsSwept (e : Env) (q : Config) (now n : ℕ) (s s' : e.redis.Store) : Type 0 where
  pub jobs :
      (j : String)
      → job_state e j s' ≡ iterate (count j (processing e s)) (sweep_at e q now) (job_state e j s)
  pub reported : n + length (queued e s) ≡ length (queued e s')
  pub conserved :
      length (queued e s') + length (processing e s')
      ≤ length (queued e s) + length (processing e s)

module _ (e : Env) (q : Config) (lease_pos : 0 < q.recovery_lock_seconds) where
  unfoldable pub locked : e.redis.Store → e.redis.Store
  locked s = (e.redis.set_nx recovery_lock_key "1" q.recovery_lock_seconds s).1

  queued-locked : (s : e.redis.Store) → queued e (locked s) ≡ queued e s
  unfolding locked
  queued-locked s = lrange-set_nx e.redis queue_key recovery_lock_key "1" _ s lease_pos

  processing-locked : (s : e.redis.Store) → processing e (locked s) ≡ processing e s
  unfolding locked
  processing-locked s = lrange-set_nx e.redis processing_key recovery_lock_key "1" _ s lease_pos

  job-locked : (j f : String) (s : e.redis.Store) → job e j f (locked s) ≡ job e j f s
  unfolding locked
  job-locked j f s = field-set_nx e.redis (job_key j) f recovery_lock_key "1" _ s lease_pos

  pub state-locked : (j : String) (s : e.redis.Store) → job_state e j (locked s) ≡ job_state e j s
  state-locked j s =
      rw
        (queued-locked s, processing-locked s, job-locked j "status" s, job-locked j "claimed_at" s)

  pub swept : ℕ → e.redis.Store → ℕ × e.redis.Store
  swept now s =
      recover_processing_script e (e.clock.repr (lease_start e q now)) (e.clock.repr now) (locked s)

  pub swept-IsSwept :
      (now : ℕ) (s : e.redis.Store) → IsSwept e q now (swept now s).0 s (swept now s).1
  unfolding swept
  swept-IsSwept now s =
      let before : String = e.clock.repr (lease_start e q now) in
      let b : IsBalanced e 0 (locked s) (swept now s).0 (swept now s).1 =
        recover-IsBalanced e before (e.clock.repr now) (locked s) in
      record {
        jobs = λ j.
            state-recover_processing e before (e.clock.repr now) j (locked s)
            ∙ rw (e.clock.tonumber-repr (lease_start e q now))
                (simp (queued-locked, processing-locked, job-locked));
        reported = omega (arith, b.reported, ap length (queued-locked s));
        conserved =
            omega
              (arith, b.conserved, ap length (queued-locked s), ap length (processing-locked s));
      }

  -- With a positive lease and every call answered, recover_processing returns. With the lock
  -- free, each job took its sweep step once for each of its entries in the processing list, the
  -- number returned is by how much the queue grew, and the two lists together did not grow;
  -- with the lock held it returns 0 and changes neither list and no record.
  pub recover_answered :
      (now : ℕ) (s : e.redis.Store)
      → (n : ℕ) × (s' : e.redis.Store) × (recover_processing e q now (calm s) ≡ (ok n, calm s'))
        × (((e.redis.get recovery_lock_key s ≡ none) × IsSwept e q now n s s')
            ⊎ ((e.redis.get recovery_lock_key s ≢ none)
                × (n ≡ 0)
                × (queued e s' ≡ queued e s)
                × (processing e s' ≡ processing e s)
                × ((j f : String) → job e j f s' ≡ job e j f s)))
  unfolding recover_processing swept locked
  recover_answered now s = elim (Option-cases (e.redis.get recovery_lock_key s)) [
    | inl free ↦ (
      (swept now s).0,
      (swept now s).1,
      rw (e.redis.set_nx-free recovery_lock_key "1" q.recovery_lock_seconds s) (rw free),
      inl (free, swept-IsSwept now s),
    )
    | inr (x, held) ↦ (
      0,
      locked s,
      rw (e.redis.set_nx-free recovery_lock_key "1" q.recovery_lock_seconds s) (rw held),
      inr (ground arith, refl, queued-locked s, processing-locked s, λ j f. job-locked j f s),
    )
  ]
