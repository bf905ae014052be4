-- ===== src/Queue/Balance.antt =====
-- The number that a sweep reports is the number of ids that it put on the queue, and each of them
-- left the processing list.
use kernexys.Prelude.{
  ℕ, ◌+◌, ◌≤◌, ◌≡◌, refl, String, true, Option, none, some, List, [], ◌∷◌, ◌==◌, eq_refl, arith,
  length, length-append, length-remove_first, leb, Bool-cases, inl, inr, any,
}
use kernexys.Redis.Laws.{lrange-hset, lrange-hdel, lrange-rpush, lrange-lrem}
use kernexys.Queue.Scripts.{
  Env, queue_key, processing_key, job_key, is_terminal, number_or_zero, requeue_stranded,
  recover_claimed, recover_entry, recover_each, recover_processing_script,
}
use kernexys.Queue.Keys.{==-queue-processing, ==-processing-queue}
use kernexys.Queue.Reading.{queued, processing, job}

-- From `n` reported in `s` to `n'` reported in `s'`.
pub record IsBalanced (e : Env) (n : ℕ) (s : e.redis.Store) (n' : ℕ) (s' : e.redis.Store)
    : Type 0 where
  pub reported : n' + length (queued e s) ≡ n + length (queued e s')
  pub conserved :
      length (queued e s') + length (processing e s')
      ≤ length (queued e s) + length (processing e s)

module _ (e : Env) where
  IsBalanced-trans :
      {n m k : ℕ} {s t u : e.redis.Store}
      → IsBalanced e n s m t
      → IsBalanced e m t k u
      → IsBalanced e n s k u
  IsBalanced-trans a b = omega (arith, a.reported, a.conserved, b.reported, b.conserved)

  ruleset moves = (
    lrange-hset, lrange-hdel, lrange-rpush, lrange-lrem, ==-processing-queue, ==-queue-processing,
    eq_refl, length-append,
  )

  lrem-IsBalanced :
      (job_id : String) (n : ℕ) (s : e.redis.Store)
      → IsBalanced e n s n (e.redis.lrem processing_key job_id s).1
  lrem-IsBalanced job_id n s = record {
    reported = simp moves;
    conserved = simp moves (ground (arith, length-remove_first job_id (processing e s)));
  }

  moved-IsBalanced :
      (job_id : String) (n : ℕ) (s : e.redis.Store)
      → any (λ y. y == job_id) (processing e s) ≡ true
      → IsBalanced e n s (n + 1) (
          e.redis.rpush queue_key job_id (
            e.redis.hdel (job_key job_id) "claimed_at" (
              e.redis.hset
                (job_key job_id)
                (("status", "queued") ∷ [])
                (e.redis.lrem processing_key job_id s).1)))
  moved-IsBalanced job_id n s h = record {
    reported = simp moves (omega arith);
    conserved = simp moves (ground (arith, length-remove_first job_id (processing e s)));
  }

  requeue-IsBalanced :
      (job_id : String) (n : ℕ) (s : e.redis.Store)
      → let (n', s') = requeue_stranded e job_id (n, s) in IsBalanced e n s n' s'
  unfolding requeue_stranded
  requeue-IsBalanced job_id n s = elim (Bool-cases (any (λ y. y == job_id) (processing e s))) [
    | inl h ↦ rw (e.redis.lrem-count processing_key job_id s) (rw h (moved-IsBalanced job_id n s h))
    | inr h ↦ rw (e.redis.lrem-count processing_key job_id s) (rw h (lrem-IsBalanced job_id n s))
  ]

  module _ (before now : String) where
    claimed-IsBalanced :
        (o : Option String) (job_id : String) (n : ℕ) (s : e.redis.Store)
        → let (n', s') = recover_claimed e o before now job_id (n, s) in IsBalanced e n s n' s'
    unfolding recover_claimed
    claimed-IsBalanced none job_id n s = record {
      reported = simp moves;
      conserved = simp moves (omega arith);
    }
    claimed-IsBalanced (some t) job_id n s =
        elim (Bool-cases
          (leb (number_or_zero (e.clock.tonumber t)) (number_or_zero (e.clock.tonumber before)))) [
            | inl h ↦ rw h (requeue-IsBalanced job_id n s)
            | inr h ↦ rw h (record { reported = refl; conserved = omega arith })
          ]

    entry-IsBalanced :
        (o : Option String) (job_id : String) (n : ℕ) (s : e.redis.Store)
        → let (n', s') = recover_entry e o before now job_id (n, s) in IsBalanced e n s n' s'
    unfolding recover_entry
    entry-IsBalanced none job_id n s = lrem-IsBalanced job_id n s
    entry-IsBalanced (some x) job_id n s = elim (Bool-cases (is_terminal x)) [
      | inl h ↦ rw h (lrem-IsBalanced job_id n s)
      | inr h ↦ rw h (claimed-IsBalanced (job e job_id "claimed_at" s) job_id n s)
    ]

    each-IsBalanced :
        (ids : List String) (n : ℕ) (s : e.redis.Store)
        → let (n', s') = recover_each e ids before now (n, s) in IsBalanced e n s n' s'
    unfolding recover_each
    each-IsBalanced [] n s = record { reported = refl; conserved = omega arith }
    each-IsBalanced (job_id ∷ ids) n s =
        let r : ℕ × e.redis.Store =
          recover_entry e (job e job_id "status" s) before now job_id (n, s) in
        IsBalanced-trans (entry-IsBalanced (job e job_id "status" s) job_id n s)
          (each-IsBalanced ids r.0 r.1)

    pub recover-IsBalanced :
        (s : e.redis.Store)
        → let (n, s') = recover_processing_script e before now s in IsBalanced e 0 s n s'
    unfolding recover_processing_script
    recover-IsBalanced s = each-IsBalanced (processing e s) 0 s
