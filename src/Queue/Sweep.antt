-- ===== src/Queue/Sweep.antt =====
-- recover_processing, seen from one job: the sweep of the whole list is one small step of that job
-- for each of its entries in the processing list.
use kernexys.Prelude.{
  ℕ, zero, suc, ◌+◌, ◌-◌, ◌≡◌, refl, ap, ◌∙◌, String, Bool, true, false, Option, none, some, List,
  [], ◌∷◌, ◌==◌, eq_iff, eq_refl, if◌then◌else◌, arith, any, count, count-append,
  count-remove_first, ltb, leb, Bool-cases, inl, inr,
}
use kernexys.Redis.Laws.{
  field-hset, field-hdel, field-rpush, field-lrem, lrange-hset, lrange-hdel, lrange-rpush,
  lrange-lrem,
}
use kernexys.Queue.Scripts.{
  Env, queue_key, processing_key, job_key, is_terminal, number_or_zero, requeue_stranded,
  recover_claimed, recover_entry, recover_each, recover_processing_script, hget,
}
use kernexys.Queue.Keys.{==-job_key, ==-queue-processing, ==-processing-queue}
use kernexys.Queue.Reading.{queued, processing, job}

-- A job as the sweep sees it: its status, its claim's time, and how often it stands in each list.
pub record JobState : Type 0 where
  pub status : Option String
  pub claimed_at : Option String
  pub waiting : ℕ
  pub held : ℕ

abbrev pub unlink_job : JobState → JobState
unlink_job j = record j { held = j.held - 1 }

abbrev pub requeue_job : ℕ → JobState → JobState
requeue_job zero j = j
requeue_job (suc held) j = record {
  status = some "queued";
  claimed_at = none;
  waiting = j.waiting + 1;
  held = held;
}

-- `before` and `now` as the script reads them, `stamp` as it writes `now`.
abbrev pub sweep_claimed : (String → Option ℕ) → ℕ → String → Option String → JobState → JobState
sweep_claimed tonumber before stamp none j = record j { claimed_at = some stamp }
sweep_claimed tonumber before stamp (some t) j =
    if leb (number_or_zero (tonumber t)) before then requeue_job j.held j else j

abbrev pub sweep_status : (String → Option ℕ) → ℕ → String → Option String → JobState → JobState
sweep_status tonumber before stamp none j = unlink_job j
sweep_status tonumber before stamp (some status) j =
    if is_terminal status then unlink_job j else sweep_claimed tonumber before stamp j.claimed_at j

unfoldable pub sweep_job : (String → Option ℕ) → ℕ → String → JobState → JobState
sweep_job tonumber before stamp j = sweep_status tonumber before stamp j.status j

abbrev pub iterate : {A : Type 0} → ℕ → (A → A) → A → A
iterate zero f a = a
iterate (suc n) f a = iterate n f (f a)

iterate-if :
    {A : Type 0} (b : Bool) (n : ℕ) (f : A → A) (a : A)
    → iterate n f (if b then f a else a) ≡ iterate (if b then suc n else n) f a
iterate-if true n f a = refl
iterate-if false n f a = refl

any-count : (x : String) (l : List String) → any (λ y. y == x) l ≡ ltb 0 (count x l)
any-count x [] = refl
any-count x (y ∷ l) = ground (arith, any-count x l)

module _ (e : Env) where
  abbrev pub job_state : String → e.redis.Store → JobState
  job_state j s = record {
    status = job e j "status" s;
    claimed_at = job e j "claimed_at" s;
    waiting = count j (queued e s);
    held = count j (processing e s);
  }

  -- an entry of one job is nothing to another
  abbrev pub at_job : String → String → (JobState → JobState) → JobState → JobState
  at_job job_id j f a = if job_id == j then f a else a

  pub state-lrem :
      (job_id j : String) (s : e.redis.Store)
      → job_state j (e.redis.lrem processing_key job_id s).1
        ≡ at_job job_id j unlink_job (job_state j s)
  state-lrem job_id j s =
      simp (field-lrem, lrange-lrem, ==-processing-queue, eq_refl, count-remove_first)
        (ground (arith, eq_iff job_id j))

  moved : String → e.redis.Store → e.redis.Store
  moved job_id s = e.redis.rpush queue_key job_id (
      e.redis.hdel (job_key job_id) "claimed_at" (
        e.redis.hset (job_key job_id) (("status", "queued") ∷ [])
          (e.redis.lrem processing_key job_id s).1))

  abbrev is_held : String → e.redis.Store → Bool
  is_held job_id s = ltb 0 (count job_id (processing e s))

  requeue_held :
      (job_id : String) (n : ℕ) (s : e.redis.Store)
      → is_held job_id s ≡ true
      → requeue_stranded e job_id (n, s) ≡ (n + 1, moved job_id s)
  unfolding requeue_stranded moved
  requeue_held job_id n s h =
      rw (e.redis.lrem-count processing_key job_id s)
        (rw (any-count job_id (processing e s)) (rw h))

  requeue_not_held :
      (job_id : String) (n : ℕ) (s : e.redis.Store)
      → is_held job_id s ≡ false
      → requeue_stranded e job_id (n, s) ≡ (n, (e.redis.lrem processing_key job_id s).1)
  unfolding requeue_stranded
  requeue_not_held job_id n s h =
      rw (e.redis.lrem-count processing_key job_id s)
        (rw (any-count job_id (processing e s)) (rw h))

  state-moved :
      (job_id j : String) (s : e.redis.Store)
      → is_held job_id s ≡ true
      → job_state j (moved job_id s) ≡ at_job job_id j (λ a. requeue_job a.held a) (job_state j s)
  unfolding moved
  state-moved job_id j s h =
      simp
        (
          field-rpush, field-hdel, field-hset, field-lrem, lrange-rpush, lrange-hdel, lrange-hset,
          lrange-lrem, ==-processing-queue, ==-queue-processing, ==-job_key, eq_refl, count-append,
          count-remove_first,
        )
        (ground (arith, eq_iff job_id j))

  state-requeue :
      (job_id j : String) (n : ℕ) (s : e.redis.Store)
      → job_state j (requeue_stranded e job_id (n, s)).1
        ≡ at_job job_id j (λ a. requeue_job a.held a) (job_state j s)
  state-requeue job_id j n s = elim (Bool-cases (is_held job_id s)) [
    | inl h ↦ rw (requeue_held job_id n s h) (state-moved job_id j s h)
    | inr h ↦ rw (requeue_not_held job_id n s h) (state-lrem job_id j s ∙ absent h)
  ]
    where
      absent :
          is_held job_id s ≡ false
          → at_job job_id j unlink_job (job_state j s)
            ≡ at_job job_id j (λ a. requeue_job a.held a) (job_state j s)
      absent h = ground (arith, eq_iff job_id j)

  module _ (before now : String) where
    -- one entry's step of a job
    abbrev pub sweep_one : JobState → JobState
    sweep_one = sweep_job e.clock.tonumber (number_or_zero (e.clock.tonumber before)) now

    state-stamp :
        (job_id j : String) (n : ℕ) (s : e.redis.Store)
        → job_state j (recover_claimed e none before now job_id (n, s)).1
          ≡ at_job job_id j (λ a. record a { claimed_at = some now }) (job_state j s)
    unfolding recover_claimed
    state-stamp job_id j n s =
        simp (field-hset, lrange-hset, ==-job_key) (ground (arith, eq_iff job_id j))

    state-recover_claimed :
        (o : Option String) (job_id j : String) (n : ℕ) (s : e.redis.Store)
        → job_state j (recover_claimed e o before now job_id (n, s)).1
          ≡ at_job job_id j
              (sweep_claimed e.clock.tonumber (number_or_zero (e.clock.tonumber before)) now o)
              (job_state j s)
    unfolding recover_claimed
    state-recover_claimed none job_id j n s = state-stamp job_id j n s
    state-recover_claimed (some t) job_id j n s =
        elim (Bool-cases
          (leb (number_or_zero (e.clock.tonumber t)) (number_or_zero (e.clock.tonumber before)))) [
            | inl h ↦ rw h (state-requeue job_id j n s)
            | inr h ↦ rw h (ground arith)
          ]

    state-recover_entry :
        (o : Option String) (job_id j : String) (n : ℕ) (s : e.redis.Store)
        → o ≡ job e job_id "status" s
        → job_state j (recover_entry e o before now job_id (n, s)).1
          ≡ at_job job_id j sweep_one (job_state j s)
    unfolding recover_entry sweep_job
    state-recover_entry none job_id j n s h =
        state-lrem job_id j s ∙ ground (arith, eq_iff job_id j)
    state-recover_entry (some x) job_id j n s h = elim (Bool-cases (is_terminal x)) [
      | inl t ↦ rw t (state-lrem job_id j s ∙ ground (arith, eq_iff job_id j))
      | inr t ↦ rw t (
          state-recover_claimed (job e job_id "claimed_at" s) job_id j n s
          ∙ ground (arith, eq_iff job_id j))
    ]

    state-recover_each :
        (ids : List String) (j : String) (n : ℕ) (s : e.redis.Store)
        → job_state j (recover_each e ids before now (n, s)).1
          ≡ iterate (count j ids) sweep_one (job_state j s)
    unfolding recover_each
    state-recover_each [] j n s = refl
    state-recover_each (id ∷ ids) j n s =
        let r : ℕ × e.redis.Store =
          recover_entry e (hget e (job_key id) "status" s) before now id (n, s) in
        state-recover_each ids j r.0 r.1
        ∙ ap (iterate (count j ids) sweep_one)
            (state-recover_entry (job e id "status" s) id j n s refl)
        ∙ iterate-if (id == j) (count j ids) sweep_one (job_state j s)

    -- The whole sweep is, for each job, its step taken once for each of its entries.
    pub state-recover_processing :
        (j : String) (s : e.redis.Store)
        → job_state j (recover_processing_script e before now s).1
          ≡ iterate (count j (processing e s)) sweep_one (job_state j s)
    unfolding recover_processing_script
    state-recover_processing j s = state-recover_each (processing e s) j 0 s
