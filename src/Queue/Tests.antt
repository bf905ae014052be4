-- ===== src/Queue/Tests.antt =====
-- The theorems at concrete stores, and a run of the methods on a store in memory.
use kernexys.Prelude.{
  inl, inr, ℕ, ◌≤◌, ◌≡◌, ◌≢◌, refl, String, true, false, Option, none, some, [], ◌∷◌, arith, ok,
  err, Result, max, ◌⊎◌,
}
use mathlib.Core.Bool.{false≢true}
use kernexys.Prelude.{length as size, eq_iff}
use kernexys.Json.{obj, Fields, member}
use kernexys.Json.Sample.{sample}
use kernexys.Redis.Memory.{memory, empty, Memory}
use kernexys.Queue.{EnqueueResult, ClaimedJob, enqueue, claim, finish, recover_processing}
use kernexys.Queue.Sample.{unary, env, config, payload_of, good, bad, one_job}
use kernexys.Queue.Scripts.{
  job_key, queue_key, processing_key, recovery_lock_key, enqueue_script, recover_processing_script,
}
use kernexys.Queue.Effects.{answered, lost, unavailable, AsyncQueueError}
use kernexys.Queue.Reading.{queued, processing, job, calm}
use kernexys.Queue.Enqueue.{answer, Enqueues, enqueue_answered}
use kernexys.Queue.Repeat.{enqueue-le-capacity, enqueue_retry}
use kernexys.Queue.Claim.{Claims, claim_answered}
use kernexys.Queue.Finish.{IsFinished, outcome, finish_answered}
use kernexys.Queue.Recover.{IsSwept, recover_answered}
use kernexys.Queue.Swept.{IsOver, swept_over, swept_young, swept_stranded}
use kernexys.Queue.Sweep.{job_state}
use kernexys.Queue.Steps.{Step, Reach, IsSingle, Reach-IsSingle}
use kernexys.Queue.Kept.{IsTracked}
use kernexys.Queue.Tracked.{Act, History, History-IsTracked}
use kernexys.Queue.Delivery.{claim-enqueue}
use kernexys.Queue.Race.{raced, raced-is_lost}

-- "a" is claimed at 100, and in another store settled.
abbrev claimed_job : Memory
claimed_job = (claim env config 100 (calm one_job)).1.store

abbrev settled_job : Memory
settled_job = (finish env config "a" "succeeded" (some good) none (calm claimed_job)).1.store

run_enqueue :
    enqueue env config "a" good (calm empty) ≡ (ok (answer true false false), calm one_job)
unfolding enqueue enqueue_script sample job_key queue_key
run_enqueue = refl

run_claim :
    (claim env config 100 (calm one_job)).0 ≡ ok (some (record { job_id = "a"; payload = good }))
unfolding claim enqueue enqueue_script sample job_key queue_key processing_key
run_claim = refl

run_recover : (recover_processing env config 130 (calm claimed_job)).0 ≡ ok 1
unfolding recover_processing recover_processing_script claim enqueue enqueue_script sample job_key
    queue_key processing_key recovery_lock_key
run_recover = refl

differ : sample.dumps good ≢ sample.dumps bad
unfolding sample
differ h = false≢true ((eq_iff (sample.dumps good) (sample.dumps bad)).1 h)

enqueue_answered_example :
    (r : EnqueueResult) × (s' : Memory) × (enqueue env config "a" good (calm empty)
      ≡ (ok r, calm s'))
    × Enqueues env config "a" (sample.dumps good) empty s' r
enqueue_answered_example = enqueue_answered env config (omega arith) "a" good empty

enqueue-le-capacity_example : size (queued env one_job) ≤ max 2 (size (queued env empty))
enqueue-le-capacity_example =
    enqueue-le-capacity env config (omega arith) "a" good empty one_job (answer true false false)
      run_enqueue

enqueue_retry_example :
    (enqueue env config "a" good (record { store = empty; faults = lost ∷ [] })
      ≡ (err unavailable, calm one_job))
    × (enqueue env config "a" good (calm one_job) ≡ (ok (answer false false false), calm one_job))
enqueue_retry_example =
    enqueue_retry env config (omega arith) "a" good empty one_job (answer true false false)
      run_enqueue refl refl

claim_answered_example :
    (r : Result AsyncQueueError (Option ClaimedJob)) × (s' : Memory) × (claim env config 100
        (calm one_job)
      ≡ (r, calm s'))
    × Claims env 100 one_job s' r
claim_answered_example = claim_answered env config 100 one_job

claim-enqueue_example :
    (c : Fields) × ((claim env config 100 (calm one_job)).0
      ≡ ok (some (record { job_id = "a"; payload = obj c })))
    × ((k : String) → member k c ≡ member k (payload_of "good"))
unfolding queue_key
claim-enqueue_example =
    claim-enqueue env config (omega arith) "a" (payload_of "good") (answer true false false) 100
      empty one_job tt refl run_enqueue refl

finish_answered_example :
    (s' : Memory) × (finish env config "a" "succeeded" (some good) none (calm claimed_job)
      ≡ (ok tt, calm s'))
    × IsFinished env "a" (outcome env config "succeeded" (some good) none) claimed_job s'
finish_answered_example =
    finish_answered env config (omega arith) "a" "succeeded" (some good) none claimed_job

recover_answered_example :
    (n : ℕ) × (s' : Memory) × (recover_processing env config 130 (calm claimed_job)
      ≡ (ok n, calm s'))
    × (((memory.get recovery_lock_key claimed_job ≡ none) × IsSwept env config 130 n claimed_job s')
        ⊎ ((memory.get recovery_lock_key claimed_job ≢ none)
            × (n ≡ 0)
            × (queued env s' ≡ queued env claimed_job)
            × (processing env s' ≡ processing env claimed_job)
            × ((j f : String) → job env j f s' ≡ job env j f claimed_job)))
recover_answered_example = recover_answered env config (omega arith) 130 claimed_job

-- A worker that died after it settled "a", and one that died between its pop and its stamp.
abbrev settled_held : Memory
settled_held = memory.hset (job_key "a") (("status", "succeeded") ∷ []) claimed_job

abbrev popped_job : Memory
popped_job = (memory.blmove queue_key processing_key one_job).1

not-IsOver : ¬ IsOver (job env "a" "status" claimed_job)
unfolding claim enqueue enqueue_script sample job_key queue_key processing_key
not-IsOver (inl e) = cc
not-IsOver (inr e) = cc

swept_over_example :
    (n : ℕ) × (s' : Memory) × (recover_processing env config 130 (calm settled_held)
      ≡ (ok n, calm s'))
    × (job_state env "a" s' ≡ record (job_state env "a" settled_held) { held = 0 })
unfolding claim enqueue enqueue_script sample job_key queue_key processing_key
swept_over_example = swept_over env config (omega arith) 130 settled_held refl "a" (inl refl)

swept_young_example :
    (n : ℕ) × (s' : Memory) × (recover_processing env config 129 (calm claimed_job)
      ≡ (ok n, calm s'))
    × (job_state env "a" s' ≡ job_state env "a" claimed_job)
unfolding claim enqueue enqueue_script sample job_key queue_key processing_key
swept_young_example =
    swept_young env config (omega arith) 129 claimed_job refl "a" 100 not-IsOver refl (omega arith)
      (omega arith)

swept_stranded_example :
    (n : ℕ) × (s' : Memory) × (recover_processing env config 130 (calm claimed_job)
      ≡ (ok n, calm s'))
    × (job_state env "a" s'
        ≡ record { status = some "queued"; claimed_at = none; waiting = 1; held = 0 })
unfolding claim enqueue enqueue_script sample job_key queue_key processing_key
swept_stranded_example =
    swept_stranded env config (omega arith) 130 claimed_job refl "a" 100 not-IsOver refl
      (omega arith) refl

popped_once : Step env config one_job popped_job
unfolding enqueue enqueue_script sample job_key queue_key processing_key
popped_once = Step.pops "a" [] refl refl

one_job-IsSingle : IsSingle (job_state env "a" one_job)
unfolding enqueue enqueue_script sample job_key queue_key processing_key
one_job-IsSingle = record { once = omega arith; recorded = λ h. cc }

Reach-IsSingle_example : IsSingle (job_state env "a" popped_job)
Reach-IsSingle_example =
    Reach-IsSingle env config (omega arith) (Reach.next Reach.here popped_once) "a" one_job-IsSingle

-- "a" is queued; then a claim whose stamp is lost, and a sweep once the lease has run out.
abbrev crashed : Memory
crashed =
    (claim env config 100
      (record { store = one_job; faults = answered ∷ answered ∷ lost ∷ [] })).1.store

crash-History : History env config empty (recover_processing env config 130 (calm crashed)).1.store
crash-History =
    History.next
      (History.next (History.next History.here (Act.enqueued "a" good [] refl))
        (Act.claimed 100 (answered ∷ answered ∷ lost ∷ []) refl))
      (Act.recovered 130 [] refl)

History-IsTracked_example :
    IsTracked (job_state env "a" (recover_processing env config 130 (calm crashed)).1.store)
History-IsTracked_example =
    History-IsTracked env config "a" (omega arith) (omega arith) crash-History (λ h. cc)

raced-is_lost_example :
    job_state env "a"
      (recover_processing_script env
        (unary 500)
        (unary 530)
        (raced env config (omega arith) "a" (("status", "succeeded") ∷ []) 100 one_job)).1
    ≡ record { status = some "running"; claimed_at = some (unary 100); waiting = 0; held = 0 }
unfolding enqueue enqueue_script sample job_key queue_key processing_key
raced-is_lost_example =
    raced-is_lost env config (omega arith) "a" [] (("status", "succeeded") ∷ []) 100 one_job refl
      refl refl (unary 500) (unary 530)
