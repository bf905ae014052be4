-- ===== src/Queue/Swept.antt =====
-- What one sweep means for a job, by where the job stands.
use kernexys.Prelude.{
  Option, ◌⊎◌, refl, eq_iff, ℕ, ◌+◌, ◌*◌, ◌<◌, ◌≤◌, ◌≡◌, ◌∙◌, String, true, false, none, some,
  arith, count, ok, inl, inr,
}
use kernexys.Queue.{Config, recover_processing}
use kernexys.Queue.Scripts.{Env, recovery_lock_key}
use kernexys.Queue.Reading.{queued, processing, job, calm}
use kernexys.Queue.Sweep.{job_state}
use kernexys.Queue.Recover.{
  IsSwept, recover_answered, is_over, lease_start, iterate_over, iterate_young, step_unstamped,
  step_stranded,
}

-- The record is gone, or the job succeeded or failed.
abbrev pub IsOver : Option String → Type 0
IsOver none = Unit {0}
IsOver (some status) = (status ≡ "succeeded") ⊎ (status ≡ "failed")

IsOver-is_over : (o : Option String) → IsOver o → is_over o ≡ true
IsOver-is_over none over = refl
IsOver-is_over (some status) over =
    ground (arith, eq_iff status "succeeded", eq_iff status "failed")

not-IsOver : (o : Option String) → ¬ IsOver o → is_over o ≡ false
not-IsOver none live = absurd (live tt)
not-IsOver (some status) live = ground (arith, eq_iff status "succeeded", eq_iff status "failed")

-- What an answered recover_processing that held the lock leaves behind.
module _ (e : Env) (q : Config) (now n : ℕ) (s s' : e.redis.Store) (swept : IsSwept e q now n s s')
    (j : String) where
  sweep_over :
      is_over (job e j "status" s) ≡ true → job_state e j s' ≡ record (job_state e j s) { held = 0 }
  sweep_over h =
      swept.jobs j
      ∙ iterate_over e.clock.tonumber (lease_start e q now) (e.clock.repr now)
          (count j (processing e s)) (job_state e j s) h
      ∙ ground arith

  sweep_young :
      (t : ℕ)
      → is_over (job e j "status" s) ≡ false
      → job e j "claimed_at" s ≡ some (e.clock.repr t)
      → now < t + q.recovery_lock_seconds * e.clock.second
      → q.recovery_lock_seconds * e.clock.second ≤ now
      → job_state e j s' ≡ job_state e j s
  sweep_young t a b c d =
      swept.jobs j
      ∙ iterate_young e.clock.tonumber (lease_start e q now) (e.clock.repr now)
          (count j (processing e s)) (job_state e j s) (e.clock.repr t) a b
          (ground (arith, e.clock.tonumber-repr t))

  sweep_unstamped :
      is_over (job e j "status" s) ≡ false
      → job e j "claimed_at" s ≡ none
      → count j (processing e s) ≡ 1
      → job_state e j s' ≡ record (job_state e j s) { claimed_at = some (e.clock.repr now) }
  sweep_unstamped a b c =
      swept.jobs j
      ∙ rw c (
          step_unstamped e.clock.tonumber (lease_start e q now) (e.clock.repr now)
            (record (job_state e j s) { held = 1 }) a b)

  sweep_stranded :
      (t : ℕ)
      → is_over (job e j "status" s) ≡ false
      → job e j "claimed_at" s ≡ some (e.clock.repr t)
      → t + q.recovery_lock_seconds * e.clock.second ≤ now
      → count j (processing e s) ≡ 1
      → job_state e j s' ≡ record {
        status = some "queued";
        claimed_at = none;
        waiting = count j (queued e s) + 1;
        held = 0;
      }
  sweep_stranded t a b c d =
      swept.jobs j
      ∙ rw d (
          step_stranded e.clock.tonumber (lease_start e q now) (e.clock.repr now)
            (record (job_state e j s) { held = 1 }) (e.clock.repr t) a b
            (ground (arith, e.clock.tonumber-repr t)))

module _ (e : Env) (q : Config) (lease_pos : 0 < q.recovery_lock_seconds) (now : ℕ)
    (s : e.redis.Store) (free : e.redis.get recovery_lock_key s ≡ none) where
  -- With the lock free, recover_processing returns after a sweep of the whole list.
  recover-IsSwept :
      (n : ℕ) × (s' : e.redis.Store) × (recover_processing e q now (calm s) ≡ (ok n, calm s'))
      × IsSwept e q now n s s'
  recover-IsSwept =
      let (n, s', run, what) = recover_answered e q lease_pos now s in
      elim what [ inl done ↦ (n, s', run, done.1) | inr kept ↦ absurd (kept.0 free) ]

  -- With a positive lease, the recovery lock free and every call answered, recover_processing
  -- returns and never puts a job back whose record is gone or terminal: it takes all of its
  -- entries off the processing list and changes neither its status, its claim time nor its
  -- entries in the queue.
  pub swept_over :
      (j : String)
      → IsOver (job e j "status" s)
      → (n : ℕ) × (s' : e.redis.Store) × (recover_processing e q now (calm s) ≡ (ok n, calm s'))
        × (job_state e j s' ≡ record (job_state e j s) { held = 0 })
  swept_over j h =
      let (n, s', run, done) = recover-IsSwept in
      (n, s', run, sweep_over e q now n s s' done j (IsOver-is_over _ h))

  -- With a positive lease, the recovery lock free and every call answered, recover_processing
  -- returns and leaves a job with no terminal status whose claim is younger than the lease as
  -- it is: status, claim time and entries in both lists (at a time when a whole lease has
  -- passed since the epoch).
  pub swept_young :
      (j : String) (t : ℕ)
      → ¬ IsOver (job e j "status" s)
      → job e j "claimed_at" s ≡ some (e.clock.repr t)
      → now < t + q.recovery_lock_seconds * e.clock.second
      → q.recovery_lock_seconds * e.clock.second ≤ now
      → (n : ℕ) × (s' : e.redis.Store) × (recover_processing e q now (calm s) ≡ (ok n, calm s'))
        × (job_state e j s' ≡ job_state e j s)
  swept_young j t a b c d =
      let (n, s', run, done) = recover-IsSwept in
      (n, s', run, sweep_young e q now n s s' done j t (not-IsOver _ a) b c d)

  -- With a positive lease, the lock free and every call answered, recover_processing returns and
  -- has only stamped a job with one entry in the processing list, no terminal status and no claim
  -- time with the time of the sweep: its status and its entries in both lists stay.
  swept_unstamped :
      (j : String)
      → ¬ IsOver (job e j "status" s)
      → job e j "claimed_at" s ≡ none
      → count j (processing e s) ≡ 1
      → (n : ℕ) × (s' : e.redis.Store) × (recover_processing e q now (calm s) ≡ (ok n, calm s'))
        × (job_state e j s' ≡ record (job_state e j s) { claimed_at = some (e.clock.repr now) })
  swept_unstamped j a b c =
      let (n, s', run, done) = recover-IsSwept in
      (n, s', run, sweep_unstamped e q now n s s' done j (not-IsOver _ a) b c)

  -- With a positive lease, the recovery lock free and every call answered, recover_processing
  -- returns and has moved a job with one entry in the processing list, no terminal status and a
  -- claim at least a lease old: its status is queued, it stands in the queue once more, its
  -- claim time is cleared and its entry in the processing list is gone.
  pub swept_stranded :
      (j : String) (t : ℕ)
      → ¬ IsOver (job e j "status" s)
      → job e j "claimed_at" s ≡ some (e.clock.repr t)
      → t + q.recovery_lock_seconds * e.clock.second ≤ now
      → count j (processing e s) ≡ 1
      → (n : ℕ) × (s' : e.redis.Store) × (recover_processing e q now (calm s) ≡ (ok n, calm s'))
        × (job_state e j s' ≡ record {
          status = some "queued";
          claimed_at = none;
          waiting = count j (queued e s) + 1;
          held = 0;
        })
  swept_stranded j t a b c d =
      let (n, s', run, done) = recover-IsSwept in
      (n, s', run, sweep_stranded e q now n s s' done j t (not-IsOver _ a) b c d)
