-- ===== src/Queue/Tracked.antt =====
-- An unfinished job is never lost, also where Redis calls fail or their replies are lost: the methods
-- run one after another, each under a schedule of faults of its own.
use mathlib.Core.Path.{subst}
use kernexys.Prelude.{
  ℕ, ◌<◌, ◌≤◌, ◌≡◌, refl, sym, String, true, Option, none, some, List, [], ◌∷◌, count, inl, inr,
  Bool-cases,
}
use kernexys.Json.{Json}
use kernexys.Queue.{
  Config, enqueue, claim, finish, recover_processing, stamp, is_settled, claim_popped, load_payload,
  decode,
}
use kernexys.Queue.Scripts.{
  Env, job_key, is_terminal, queue_key, processing_key, enqueue_script, recover_processing_script,
  number_or_zero, recovery_lock_key,
}
use kernexys.Queue.Effects.{Fault, unavailable, invalid}
use kernexys.Queue.Reading.{queued, processing}
use kernexys.Queue.Enqueue.{enqueue_script_cases, added-IsAdded}
use kernexys.Queue.Claim.{popped}
use kernexys.Queue.Recover.{locked, state-locked}
use kernexys.Queue.Sweep.{job_state, sweep_one, state-recover_processing}
use kernexys.Queue.Faults.{after, call_rule, bind_rule}
use kernexys.Queue.Kept.{
  P, IsTracked, sweep_job-IsTracked, iterate-IsTracked, IsAdded-IsTracked, popped_cons-IsTracked,
  popped_nil-IsTracked, dropped-IsTracked, stamped-IsTracked, settled-IsTracked,
}

-- One run of a method, under some faults.
pub data Act (e : Env) (q : Config) (s s' : e.redis.Store) : Type 0 where
  enqueued :
      (job_id : String) (payload : Json) (faults : List Fault)
      → s' ≡ (enqueue e q job_id payload (record { store = s; faults = faults })).1.store
      → Act e q s s'
  claimed :
      (now : ℕ) (faults : List Fault)
      → s' ≡ (claim e q now (record { store = s; faults = faults })).1.store
      → Act e q s s'
  finished :
      (job_id status : String) (result : Option Json) (error : Option String) (faults : List Fault)
      → is_terminal status ≡ true
      → s' ≡ (finish e q job_id status result error (record { store = s; faults = faults })).1.store
      → Act e q s s'
  recovered :
      (now : ℕ) (faults : List Fault)
      → s' ≡ (recover_processing e q now (record { store = s; faults = faults })).1.store
      → Act e q s s'

pub data History (e : Env) (q : Config) (s : e.redis.Store) : e.redis.Store → Type 0 where
  here : History e q s s
  next : {t u : e.redis.Store} → History e q s t → Act e q t u → History e q s u

module _ (e : Env) (q : Config) (j : String) where
  enqueue-IsTracked :
      0 < q.job_ttl_seconds
      → (job_id : String) (payload : Json) (s : e.redis.Store) (faults : List Fault) → (P e q j) s
      → (P e q j) (after (enqueue e q job_id payload) s faults)
  unfolding enqueue
  enqueue-IsTracked ttl_pos job_id payload s faults v =
      bind_rule (P e q j) unavailable _ _ s faults v kept (λ rest. kept)
    where
      kept :
          (P e q j)
            (enqueue_script e
              (job_key job_id)
              queue_key
              (e.codec.dumps payload)
              q.capacity
              q.job_ttl_seconds
              job_id
              s).1
      kept = elim (enqueue_script_cases e q ttl_pos job_id (e.codec.dumps payload) s) [
        | inl (_, run) ↦ rw run v
        | inr (inl (_, _, run)) ↦ rw run v
        | inr (inr (inl (_, _, run))) ↦ rw run v
        | inr (inr (inr (new, _, run))) ↦
            rw run
              (IsAdded-IsTracked e q j job_id _ s _ (added-IsAdded e q ttl_pos job_id _ s new) v)
      ]

  load_payload-store :
      (job_id : String) (o : Option String) (s : e.redis.Store) (faults : List Fault)
      → after (load_payload e q job_id o) s faults ≡ s
  load_payload-store job_id none s faults = refl
  load_payload-store job_id (some text) s faults = decoded (e.codec.loads text)
    where
      decoded : (p : Option Json) → after (decode e q job_id p) s faults ≡ s
      decoded none = refl
      decoded (some p) = refl

  claim_popped-IsTracked :
      (now : ℕ) (job_id : String) (s : e.redis.Store) (faults : List Fault)
      → 1 ≤ count job_id (processing e s)
      → (P e q j) s
      → (P e q j) (after (claim_popped e q now (some job_id)) s faults)
  claim_popped-IsTracked now job_id s faults held v =
      bind_rule (P e q j) invalid _ _ s faults v v λ rest.
        elim (Bool-cases (is_settled (e.redis.hgetall (job_key job_id) s))) [
          | inl over ↦ rw over (
              bind_rule (P e q j) invalid _ _ s rest v (dropped-IsTracked e q j job_id s over v)
                (λ _. dropped-IsTracked e q j job_id s over v))
          | inr open_job ↦ rw open_job (
              bind_rule (P e q j) invalid _ _ s rest v (stamped-IsTracked e q j job_id now s held v)
                (λ more.
                  subst (P e q j) (sym (load_payload-store job_id _ _ more))
                    (stamped-IsTracked e q j job_id now s held v)))
        ]

  claim-IsTracked :
      (now : ℕ) (s : e.redis.Store) (faults : List Fault)
      → (P e q j) s
      → (P e q j) (after (claim e q now) s faults)
  unfolding claim
  claim-IsTracked now s faults v = go (queued e s) refl
    where
      go : (l : List String) → queued e s ≡ l → (P e q j) (after (claim e q now) s faults)
      go [] h =
          let w : (P e q j) (popped e s) = popped_nil-IsTracked e q j s h v in
          bind_rule (P e q j) invalid _ _ s faults v w
            λ rest. rw (e.redis.blmove-head queue_key processing_key s) (rw h w)
      go (job_id ∷ rest) h =
          let w = popped_cons-IsTracked e q j job_id rest s h v in
          bind_rule (P e q j) invalid _ _ s faults v w.0 λ more.
            rw (e.redis.blmove-head queue_key processing_key s)
              (rw h (claim_popped-IsTracked now job_id (popped e s) more w.1 w.0))

  finish-IsTracked :
      0 < q.job_ttl_seconds
      → (job_id status : String) (result : Option Json) (error : Option String) (s : e.redis.Store)
        (faults : List Fault)
      → is_terminal status ≡ true
      → (P e q j) s
      → (P e q j) (after (finish e q job_id status result error) s faults)
  unfolding finish
  finish-IsTracked ttl_pos job_id status result error s faults done v =
      call_rule (P e q j) unavailable _ s faults v
        (settled-IsTracked e q j ttl_pos job_id status result error s done v)

  recover-IsTracked :
      0 < q.recovery_lock_seconds
      → (now : ℕ) (s : e.redis.Store) (faults : List Fault) → (P e q j) s
      → (P e q j) (after (recover_processing e q now) s faults)
  unfolding recover_processing locked
  recover-IsTracked lease_pos now s faults v =
      bind_rule (P e q j) unavailable _ _ s faults v held λ rest.
        elim (Bool-cases (e.redis.set_nx recovery_lock_key "1" q.recovery_lock_seconds s).0) [
          | inl free ↦ rw free (
              call_rule (P e q j) unavailable _ _ rest held
                (swept _ _ (locked e q lease_pos s) held))
          | inr taken ↦ rw taken held
        ]
    where
      held : (P e q j) (locked e q lease_pos s)
      held = subst IsTracked (sym (state-locked e q lease_pos j s)) v

      swept :
          (before stamp : String) (t : e.redis.Store)
          → (P e q j) t
          → (P e q j) (recover_processing_script e before stamp t).1
      swept before stamp t w = subst IsTracked (sym (state-recover_processing e before stamp j t)) (
          iterate-IsTracked (sweep_one e before stamp)
            (sweep_job-IsTracked e.clock.tonumber (number_or_zero (e.clock.tonumber before)) stamp)
            (count j (processing e t)) (job_state e j t) w)

  -- With positive TTL and recovery lease, in any history of enqueue, claim, finish with a
  -- terminal status and recover_processing, one method after another and each under any
  -- schedule of refused or lost Redis calls, a job whose status is not terminal stays in the
  -- queue or the processing list, if it did at the start.
  pub History-IsTracked :
      0 < q.job_ttl_seconds
      → 0 < q.recovery_lock_seconds
      → {s t : e.redis.Store} → History e q s t
      → IsTracked (job_state e j s)
      → IsTracked (job_state e j t)
  History-IsTracked a b here v = v
  History-IsTracked a b (next {t} r (enqueued job_id payload faults h)) v =
      rw h (enqueue-IsTracked a job_id payload t faults (History-IsTracked a b r v))
  History-IsTracked a b (next {t} r (claimed now faults h)) v =
      rw h (claim-IsTracked now t faults (History-IsTracked a b r v))
  History-IsTracked a b (next {t} r (finished job_id status result error faults done h)) v =
      rw h (finish-IsTracked a job_id status result error t faults done (History-IsTracked a b r v))
  History-IsTracked a b (next {t} r (recovered now faults h)) v =
      rw h (recover-IsTracked b now t faults (History-IsTracked a b r v))
