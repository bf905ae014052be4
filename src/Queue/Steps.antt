-- ===== src/Queue/Steps.antt =====
-- The queue shared by any number of API processes and workers: each Redis call of theirs is one
-- atomic step, in any order. A claim is three of them (the pop, the read, the write), so other
-- clients' steps may fall between.
use kernexys.Prelude.{
  ℕ, zero, suc, ◌+◌, ◌<◌, ◌≤◌, ◌≡◌, ap, inl, inr, String, false, Option, none, List, [], ◌∷◌,
  eq_iff, arith, count, count-append, count-remove_first,
}
use kernexys.Prelude.Dict.{Dict}
use kernexys.Redis.Laws.{field_of_missing, field-hset, lrange-hset}
use kernexys.Queue.{Config, stamp, settle}
use kernexys.Queue.Scripts.{
  Env, job_key, queue_key, processing_key, enqueue_script, recover_processing_script,
  number_or_zero,
}
use kernexys.Queue.Keys.{==-job_key}
use kernexys.Queue.Reading.{queued, processing, is_known}
use kernexys.Queue.Enqueue.{IsAdded, added, added-IsAdded, enqueue_script_cases}
use kernexys.Queue.Claim.{popped, queued-popped, processing-popped, job-popped}
use kernexys.Queue.Finish.{IsFinished, settle-IsFinished}
use kernexys.Queue.Sweep.{
  JobState, job_state, iterate, sweep_one, state-recover_processing, state-lrem, sweep_job,
}

-- One atomic step of some client that changes the store.
pub data Step (e : Env) (q : Config) (s s' : e.redis.Store) : Type 0 where
  -- enqueue's script, on any of its branches
  enqueues :
      (job_id text : String)
      → s'
        ≡ (enqueue_script e (job_key job_id) queue_key text q.capacity q.job_ttl_seconds job_id s).1
      → Step e q s s'
  -- claim's BLMOVE, its LREM and its HSET
  pops :
      (job_id : String) (rest : List String)
      → queued e s ≡ job_id ∷ rest
      → s' ≡ popped e s
      → Step e q s s'
  drops : (job_id : String) → s' ≡ (e.redis.lrem processing_key job_id s).1 → Step e q s s'
  stamps : (job_id : String) (now : ℕ) → s' ≡ stamp e q job_id now s → Step e q s s'
  -- finish's transaction
  settles :
      (job_id : String) (mapping : Dict String) → s' ≡ settle e q job_id mapping s → Step e q s s'
  sweeps : (before now : String) → s' ≡ (recover_processing_script e before now s).1 → Step e q s s'

pub data Reach (e : Env) (q : Config) (s : e.redis.Store) : e.redis.Store → Type 0 where
  here : Reach e q s s
  next : {t u : e.redis.Store} → Reach e q s t → Step e q t u → Reach e q s u

-- A job stands at most once in the two lists together, and nowhere if it has no record.
pub record IsSingle (j : JobState) : Type 0 where
  pub once : j.waiting + j.held ≤ 1
  pub recorded : j.status ≡ none → j.waiting + j.held ≡ 0

sweep_job-IsSingle :
    (tonumber : String → Option ℕ) (before : ℕ) (stamp : String) (j : JobState)
    → IsSingle j
    → IsSingle (sweep_job tonumber before stamp j)
unfolding sweep_job
sweep_job-IsSingle tonumber before stamp j v = ground arith

iterate-IsSingle :
    (f : JobState → JobState)
    → ((j : JobState) → IsSingle j → IsSingle (f j))
    → (n : ℕ) (j : JobState) → IsSingle j
    → IsSingle (iterate n f j)
iterate-IsSingle f h zero j v = v
iterate-IsSingle f h (suc n) j v = iterate-IsSingle f h n (f j) (h j v)

module _ (e : Env) (q : Config) where
  enqueues-IsSingle :
      (job_id text : String) (s s' : e.redis.Store) (j : String)
      → is_known e job_id s ≡ false
      → IsAdded e job_id text s s'
      → IsSingle (job_state e j s)
      → IsSingle (job_state e j s')
  enqueues-IsSingle job_id text s s' j new h v = ground (
    arith,
    ap (count j) h.last,
    count-append j (queued e s) (job_id ∷ []),
    ap (count j) h.same_processing,
    h.fields j "status",
    eq_iff job_id j,
    field_of_missing e.redis (job_key job_id) "status" s new,
  )

  pops-IsSingle :
      (job_id : String) (rest : List String) (s : e.redis.Store) (j : String)
      → queued e s ≡ job_id ∷ rest
      → IsSingle (job_state e j s)
      → IsSingle (job_state e j (popped e s))
  pops-IsSingle job_id rest s j h v = ground (
    arith,
    ap (count j) h,
    ap (count j) (queued-popped e s job_id rest h),
    ap (count j) (processing-popped e s job_id rest h),
    count-append j (processing e s) (job_id ∷ []),
    job-popped e j "status" s,
  )

  drops-IsSingle :
      (job_id : String) (s : e.redis.Store) (j : String)
      → IsSingle (job_state e j s)
      → IsSingle (job_state e j (e.redis.lrem processing_key job_id s).1)
  drops-IsSingle job_id s j v = rw (state-lrem e job_id j s) (ground arith)

  stamps-IsSingle :
      (job_id : String) (now : ℕ) (s : e.redis.Store) (j : String)
      → IsSingle (job_state e j s)
      → IsSingle (job_state e j (stamp e q job_id now s))
  unfolding stamp
  stamps-IsSingle job_id now s j v = simp (field-hset, lrange-hset, ==-job_key) (ground arith)

  settles-IsSingle :
      (job_id : String) (m : Dict String) (s s' : e.redis.Store) (j : String)
      → IsFinished e job_id m s s'
      → IsSingle (job_state e j s)
      → IsSingle (job_state e j s')
  settles-IsSingle job_id m s s' j h v = ground (
    arith,
    ap (count j) h.same_queue,
    ap (count j) h.unlinked,
    count-remove_first j job_id (processing e s),
    h.fields j "status",
  )

  sweeps-IsSingle :
      (before now : String) (s : e.redis.Store) (j : String)
      → IsSingle (job_state e j s)
      → IsSingle (job_state e j (recover_processing_script e before now s).1)
  sweeps-IsSingle before now s j v = rw (state-recover_processing e before now j s) (
      iterate-IsSingle (sweep_one e before now)
        (sweep_job-IsSingle e.clock.tonumber (number_or_zero (e.clock.tonumber before)) now)
        (count j (processing e s)) (job_state e j s) v)

  script-IsSingle :
      (ttl_pos : 0 < q.job_ttl_seconds) (job_id text : String) (s : e.redis.Store) (j : String)
      → IsSingle (job_state e j s)
      → IsSingle (
          job_state e j
            (enqueue_script e
              (job_key job_id)
              queue_key
              text
              q.capacity
              q.job_ttl_seconds
              job_id
              s).1)
  script-IsSingle ttl_pos job_id text s j v =
      elim (enqueue_script_cases e q ttl_pos job_id text s) [
        | inl known ↦ rw known.1 v
        | inr (inl conflicting) ↦ rw conflicting.2 v
        | inr (inr (inl rejected)) ↦ rw rejected.2 v
        | inr (inr (inr accepted)) ↦ rw accepted.2 (
            enqueues-IsSingle job_id text s (added e q ttl_pos job_id text s) j accepted.0
              (added-IsAdded e q ttl_pos job_id text s accepted.0) v)
      ]

  Step-IsSingle :
      {s s' : e.redis.Store}
      → 0 < q.job_ttl_seconds
      → Step e q s s'
      → (j : String) → IsSingle (job_state e j s)
      → IsSingle (job_state e j s')
  Step-IsSingle {s} ttl_pos (enqueues job_id text r) j v =
      rw r (script-IsSingle ttl_pos job_id text s j v)
  Step-IsSingle {s} ttl_pos (pops job_id rest h r) j v = rw r (pops-IsSingle job_id rest s j h v)
  Step-IsSingle {s} ttl_pos (drops job_id r) j v = rw r (drops-IsSingle job_id s j v)
  Step-IsSingle {s} ttl_pos (stamps job_id now r) j v = rw r (stamps-IsSingle job_id now s j v)
  Step-IsSingle {s} ttl_pos (settles job_id m r) j v = rw r (
      settles-IsSingle job_id m s (settle e q job_id m s) j
        (settle-IsFinished e q ttl_pos job_id m s) v)
  Step-IsSingle {s} ttl_pos (sweeps before now r) j v = rw r (sweeps-IsSingle before now s j v)

  -- With a positive TTL, however the atomic Redis steps of any number of clients interleave
  -- (the scripts of enqueue and recover_processing, the transaction of finish, and the three
  -- calls of a claim), while no record expires: a job that stands at most once in the queue and
  -- the processing list together, and not at all if it has no status, keeps to that.
  pub Reach-IsSingle :
      {s t : e.redis.Store}
      → 0 < q.job_ttl_seconds
      → Reach e q s t
      → (j : String) → IsSingle (job_state e j s)
      → IsSingle (job_state e j t)
  Reach-IsSingle ttl_pos here j v = v
  Reach-IsSingle ttl_pos (next r st) j v = Step-IsSingle ttl_pos st j (Reach-IsSingle ttl_pos r j v)
