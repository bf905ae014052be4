-- ===== src/Queue/Kept.antt =====
-- Single updates of the store that keep an unfinished job in one of the two lists.
use mathlib.Core.Path.{subst}
use kernexys.Prelude.{
  ℕ, suc, ◌+◌, ◌<◌, ◌≤◌, ◌≡◌, sym, ap, ◌∙◌, String, true, false, Option, List, [], ◌∷◌, eq_iff,
  eq_refl, arith, count, count-append, count-remove_first, zero,
}
use kernexys.Json.{Json}
use kernexys.Redis.Laws.{field-hset, lrange-hset, lookup_of_empty, view}
use kernexys.Redis.View
use kernexys.Queue.{Config, stamp, is_settled, settle}
use kernexys.Queue.Scripts.{Env, job_key, is_terminal, queue_key, processing_key}
use kernexys.Queue.Keys.{==-job_key}
use kernexys.Queue.Reading.{queued, processing}
use kernexys.Queue.Enqueue.{IsAdded}
use kernexys.Queue.Claim.{popped, queued-popped, processing-popped, job-popped}
use kernexys.Queue.Finish.{IsFinished, outcome, settle-IsFinished}
use kernexys.Queue.Recover.{is_over}
use kernexys.Queue.Sweep.{JobState, job_state, iterate, sweep_job, state-lrem}

-- An unfinished job stands in one of the lists.
abbrev pub IsTracked : JobState → Type 0
IsTracked j = is_over j.status ≡ false → 1 ≤ j.waiting + j.held

pub sweep_job-IsTracked :
    (tonumber : String → Option ℕ) (before : ℕ) (stamp : String) (j : JobState)
    → IsTracked j
    → IsTracked (sweep_job tonumber before stamp j)
unfolding sweep_job
sweep_job-IsTracked tonumber before stamp j v h = ground arith

pub iterate-IsTracked :
    (f : JobState → JobState)
    → ((j : JobState) → IsTracked j → IsTracked (f j))
    → (n : ℕ) (j : JobState) → IsTracked j
    → IsTracked (iterate n f j)
iterate-IsTracked f h zero j v = v
iterate-IsTracked f h (suc n) j v = iterate-IsTracked f h n (f j) (h j v)

module _ (e : Env) (q : Config) (j : String) where
  abbrev pub P : e.redis.Store → Type 0
  P s = IsTracked (job_state e j s)

  pub IsAdded-IsTracked :
      (job_id text : String) (s s' : e.redis.Store) → IsAdded e job_id text s s' → P s → P s'
  IsAdded-IsTracked job_id text s s' h v over = ground (
    arith,
    ap (count j) h.last,
    count-append j (queued e s) (job_id ∷ []),
    ap (count j) h.same_processing,
    h.fields j "status",
    eq_iff job_id j,
  )

  pub popped_cons-IsTracked :
      (job_id : String) (rest : List String) (s : e.redis.Store)
      → queued e s ≡ job_id ∷ rest
      → P s
      → P (popped e s) × (1 ≤ count job_id (processing e (popped e s)))
  popped_cons-IsTracked job_id rest s h v = (
    λ over. ground (
      arith,
      ap (count j) h,
      ap (count j) (queued-popped e s job_id rest h),
      ap (count j) (processing-popped e s job_id rest h),
      count-append j (processing e s) (job_id ∷ []),
      job-popped e j "status" s,
    ),
    ground (
      arith,
      eq_refl job_id,
      ap (count job_id) (processing-popped e s job_id rest h),
      count-append job_id (processing e s) (job_id ∷ []),
    ),
  )

  pub popped_nil-IsTracked : (s : e.redis.Store) → queued e s ≡ [] → P s → P (popped e s)
  popped_nil-IsTracked s h v =
      let same : view e.redis (popped e s) ≡ view e.redis s =
        e.redis.observe-blmove queue_key processing_key s ∙ rw h in
      λ over. ground (
        arith,
        ap (λ (a : View.View). a.hash (job_key j) "status") same,
        ap (λ (a : View.View). count j (a.list queue_key)) same,
        ap (λ (a : View.View). count j (a.list processing_key)) same,
      )

  pub dropped-IsTracked :
      (job_id : String) (s : e.redis.Store)
      → is_settled (e.redis.hgetall (job_key job_id) s) ≡ true
      → P s
      → P (e.redis.lrem processing_key job_id s).1
  dropped-IsTracked job_id s h v = subst IsTracked (sym (state-lrem e job_id j s)) λ over.
      ground (arith, eq_iff job_id j, lookup_of_empty "status" (e.redis.hgetall (job_key job_id) s))

  pub stamped-IsTracked :
      (job_id : String) (now : ℕ) (s : e.redis.Store)
      → 1 ≤ count job_id (processing e s)
      → P s
      → P (stamp e q job_id now s)
  unfolding stamp
  stamped-IsTracked job_id now s h v =
      simp (field-hset, lrange-hset, ==-job_key) λ over. ground (arith, eq_iff job_id j)

  pub settled-IsTracked :
      (ttl_pos : 0 < q.job_ttl_seconds) (job_id status : String) (result : Option Json)
      (error : Option String) (s : e.redis.Store)
      → is_terminal status ≡ true
      → P s
      → P (settle e q job_id (outcome e q status result error) s)
  settled-IsTracked ttl_pos job_id status result error s done v =
      let h : IsFinished e job_id (outcome e q status result error) s
          (settle e q job_id (outcome e q status result error) s) =
        settle-IsFinished e q ttl_pos job_id (outcome e q status result error) s in
      λ over. ground (
        arith,
        ap (count j) h.same_queue,
        ap (count j) h.unlinked,
        count-remove_first j job_id (processing e s),
        h.fields j "status",
      )
