-- ===== src/Queue/Repeat.antt =====
-- enqueue: the capacity bound, repeated requests, and a retry after a lost reply.
use kernexys.Prelude.{
  ◌≤◌, ◌<◌, ◌≡◌, ◌≢◌, sym, ap, ◌∙◌, String, true, false, some, [], ◌∷◌, eq_iff, eq_refl, arith,
  length, length-append, max, ok, err, Result,
}
use mathlib.Core.Path.{subst₂}
use kernexys.Json.{Json}
use kernexys.Queue.{Config, EnqueueResult, enqueue}
use kernexys.Queue.Scripts.{Env, enqueue_script, job_key}
use kernexys.Queue.Effects.{World, AsyncQueueError, unavailable, ok-injective, lost}
use kernexys.Queue.Reading.{queued, job, calm}
use kernexys.Queue.Enqueue.{
  answer, IsAdded, Enqueues, known, conflicting, rejected, accepted, enqueue_answered,
}
use kernexys.Redis.Laws.{exists_of_field}

abbrev retried :
    {S A : Type 0} → Result AsyncQueueError A × World S → Result AsyncQueueError A × World S
retried (r, w) = (err unavailable, w)

module _ (e : Env) (q : Config) (ttl_pos : 0 < q.job_ttl_seconds) where
  pub enqueue_inv :
      (job_id : String) (payload : Json) (s s' : e.redis.Store) (r : EnqueueResult)
      → enqueue e q job_id payload (calm s) ≡ (ok r, calm s')
      → Enqueues e q job_id (e.codec.dumps payload) s s' r
  enqueue_inv job_id payload s s' r run = go (enqueue_answered e q ttl_pos job_id payload s)
    where
      go :
          ((r₁ : EnqueueResult) × (s₁ : e.redis.Store) × (enqueue e q job_id payload (calm s)
              ≡ (ok r₁, calm s₁))
            × Enqueues e q job_id (e.codec.dumps payload) s s₁ r₁)
          → Enqueues e q job_id (e.codec.dumps payload) s s' r
      go (r₁, s₁, run₁, h) =
          let same : (r₁ ≡ r) × (calm s₁ ≡ calm s') = ok-injective (sym run₁ ∙ run) in
          subst₂ (λ x y. Enqueues e q job_id (e.codec.dumps payload) s x y)
            (ap (λ (w : World e.redis.Store). w.store) same.1) same.0 h

  -- With a positive TTL, an answered enqueue leaves the queue no longer than its capacity or
  -- than it was.
  pub enqueue-le-capacity :
      (job_id : String) (payload : Json) (s s' : e.redis.Store) (r : EnqueueResult)
      → enqueue e q job_id payload (calm s) ≡ (ok r, calm s')
      → length (queued e s') ≤ max q.capacity (length (queued e s))
  enqueue-le-capacity job_id payload s s' r run = elim (enqueue_inv job_id payload s s' r run) [
    | known _ same _ ↦ rw same (omega arith)
    | conflicting _ _ same _ ↦ rw same (omega arith)
    | rejected _ _ same _ ↦ rw same (omega arith)
    | accepted _ room new _ ↦ rw new.last (omega (arith, length-append (queued e s) (job_id ∷ [])))
  ]

  payload-IsAdded :
      (job_id text : String) (s s' : e.redis.Store)
      → IsAdded e job_id text s s'
      → job e job_id "payload" s' ≡ some text
  payload-IsAdded job_id text s s' new = ground (arith, new.fields job_id "payload", eq_refl job_id)

  payload_after :
      (job_id text : String) (s s' : e.redis.Store) (r : EnqueueResult)
      → Enqueues e q job_id text s s' r
      → r.full ≡ false
      → r.conflict ≡ false
      → job e job_id "payload" s' ≡ some text
  payload_after job_id text s s' r (known old same _) full conflict = rw same old
  payload_after job_id text s s' r (conflicting _ _ same e₁) full conflict = ground arith
  payload_after job_id text s s' r (rejected _ _ same e₁) full conflict = ground arith
  payload_after job_id text s s' r (accepted _ _ new _) full conflict =
      payload-IsAdded job_id text s s' new

  enqueue_known :
      (job_id : String) (payload : Json) (s : e.redis.Store)
      → job e job_id "payload" s ≡ some (e.codec.dumps payload)
      → enqueue e q job_id payload (calm s) ≡ (ok (answer false false false), calm s)
  unfolding enqueue enqueue_script
  enqueue_known job_id payload s old =
      rw (exists_of_field e.redis (job_key job_id) "payload" s old, old, eq_refl)

  -- With a positive TTL, once a request was neither full nor in conflict, the same request
  -- again is reported as known and changes nothing.
  pub enqueue-enqueue :
      (job_id : String) (payload : Json) (s s' : e.redis.Store) (r : EnqueueResult)
      → enqueue e q job_id payload (calm s) ≡ (ok r, calm s')
      → r.full ≡ false
      → r.conflict ≡ false
      → enqueue e q job_id payload (calm s') ≡ (ok (answer false false false), calm s')
  enqueue-enqueue job_id payload s s' r run full conflict =
      enqueue_known job_id payload s'
        (payload_after job_id _ s s' r (enqueue_inv job_id payload s s' r run) full conflict)

  -- With a positive TTL, once a request was neither full nor in conflict, a request with the
  -- same id and a payload with another text is reported as a conflict and changes nothing.
  pub enqueue_other_payload :
      (job_id : String) (first second : Json) (s s' : e.redis.Store) (r : EnqueueResult)
      → enqueue e q job_id first (calm s) ≡ (ok r, calm s')
      → r.full ≡ false
      → r.conflict ≡ false
      → e.codec.dumps first ≢ e.codec.dumps second
      → enqueue e q job_id second (calm s') ≡ (ok (answer false false true), calm s')
  unfolding enqueue enqueue_script
  enqueue_other_payload job_id first second s s' r run full conflict other =
      let old : job e job_id "payload" s' ≡ some (e.codec.dumps first) =
        (payload_after job_id _ s s' r (enqueue_inv job_id first s s' r run) full conflict) in
      rw (exists_of_field e.redis (job_key job_id) "payload" s' old, old)
        (ground (arith, eq_iff (e.codec.dumps first) (e.codec.dumps second)))

  -- With a positive TTL, if the reply of a request that is neither full nor in conflict is
  -- lost, enqueue raises and its effect stands, and the retry is reported as known and changes
  -- nothing.
  pub enqueue_retry :
      (job_id : String) (payload : Json) (s s' : e.redis.Store) (r : EnqueueResult)
      → enqueue e q job_id payload (calm s) ≡ (ok r, calm s')
      → r.full ≡ false
      → r.conflict ≡ false
      → (enqueue e q job_id payload (record { store = s; faults = lost ∷ [] })
          ≡ (err unavailable, calm s'))
        × (enqueue e q job_id payload (calm s') ≡ (ok (answer false false false), calm s'))
  unfolding enqueue
  enqueue_retry job_id payload s s' r run full conflict = (
    ap (retried {A = EnqueueResult}) run,
    enqueue-enqueue job_id payload s s' r run full conflict,
  )
