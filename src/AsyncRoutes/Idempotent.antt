-- ===== src/AsyncRoutes/Idempotent.antt =====
-- A client that repeats a request with its idempotency key.
use kernexys.Prelude.{
  ◌<◌, ◌≡◌, refl, sym, ap, ◌∙◌, String, Bool, true, false, some, Result, ok, err, ◌==◌, Bool-cases,
  inl, inr,
}
use mathlib.Core.Bool.{false≢true}
use kernexys.Json.{Json}
use kernexys.Kubernetes.{Cluster}
use kernexys.Queue.{Config, EnqueueResult}
use kernexys.Queue.Scripts.{Env}
use kernexys.Queue.Effects.{World, AsyncQueueError}
use kernexys.Queue.Reading.{calm}
use kernexys.Queue.Enqueue.{enqueue_answered}
use kernexys.Queue.Repeat.{enqueue-enqueue}
use kernexys.Deployments.Ready.{Raised}
use kernexys.AsyncRoutes.{
  JobReply, chosen_job_id, job_payload, queue_reply, endpoint_for, submit, enqueue_job,
}

abbrev is_ok : Result Raised JobReply → Bool
is_ok (ok r) = true
is_ok (err e) = false

abbrev id_or : String → Result Raised JobReply → String
id_or s (ok r) = r.job_id
id_or s (err e) = s

queue_reply_ok :
    (job_id : String) (result : EnqueueResult) (reply : JobReply)
    → queue_reply job_id (ok result) ≡ ok reply
    → (result.full ≡ false) × (result.conflict ≡ false) × (reply.job_id ≡ job_id)
unfolding queue_reply
queue_reply_ok job_id result reply h = elim (Bool-cases result.full) [
  | inl full ↦ absurd (false≢true (ap is_ok (rw full at h)))
  | inr room ↦ elim (Bool-cases result.conflict) [
    | inl conflict ↦ absurd (false≢true (ap is_ok (rw (room, conflict) at h)))
    | inr same ↦ (room, same, sym (ap (id_or job_id) (rw (room, same) at h)))
  ]
]

module _ (e : Env) (k : Cluster) (hexdigest : String → String) (q : Config)
    (ttl_pos : 0 < q.job_ttl_seconds) (namespace name text key endpoint : String)
    (keyed : (key == "") ≡ false) (objects : k.Objects)
    (ready : endpoint_for k namespace name objects ≡ ok endpoint) where
  abbrev keyed_id : String → String
  keyed_id fresh = chosen_job_id hexdigest fresh namespace name (some key)

  keyed_id-same : (fresh later : String) → keyed_id fresh ≡ keyed_id later
  unfolding chosen_job_id
  keyed_id-same fresh later = rw keyed refl

  enqueue_job-submit :
      (fresh : String) (w : World e.redis.Store)
      → enqueue_job e k hexdigest (some q) fresh namespace name text (some key) objects w
        ≡ submit e k hexdigest
            (some q)
            (keyed_id fresh)
            (job_payload namespace name endpoint text)
            w
  unfolding enqueue_job
  enqueue_job-submit fresh w = rw ready refl

  -- With a positive TTL, every Redis call answered, an idempotency key that is not empty and a
  -- deployment that is ready at the same endpoint: after a request was accepted, the same
  -- request again is answered 200 with the same job id, whatever fresh id it draws, and changes
  -- nothing.
  pub enqueue_job-enqueue_job :
      (fresh later : String) (reply : JobReply) (s s' : e.redis.Store)
      → enqueue_job e k hexdigest (some q) fresh namespace name text (some key) objects (calm s)
        ≡ (ok reply, calm s')
      → enqueue_job e k hexdigest (some q) later namespace name text (some key) objects (calm s')
        ≡ (ok (record { status_code = 200; job_id = reply.job_id }), calm s')
  unfolding queue_reply
  enqueue_job-enqueue_job fresh later reply s s' first =
      let id : String = keyed_id fresh in
      let payload : Json = job_payload namespace name endpoint text in
      let run = enqueue_answered e q ttl_pos id payload s in
      let reduced : (queue_reply id (ok run.0), calm run.1) ≡ (ok reply, calm s') =
        sym (
          ap
            (λ (x : Result AsyncQueueError EnqueueResult × World e.redis.Store).
              (queue_reply id x.0, x.1))
            run.2)
        ∙ (sym (enqueue_job-submit fresh (calm s)) ∙ first) in
      let fine =
        queue_reply_ok id run.0 reply
          (ap (λ (x : Result Raised JobReply × World e.redis.Store). x.0) reduced) in
      let store = ap (λ (x : Result Raised JobReply × World e.redis.Store). x.1.store) reduced in
      let once = enqueue-enqueue e q ttl_pos id payload s run.1 run.0 run.2 fine.0 fine.1 in
      enqueue_job-submit later (calm s')
      ∙ rw (keyed_id-same later fresh, sym store, once, fine.2) refl
