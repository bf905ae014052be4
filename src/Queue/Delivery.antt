-- ===== src/Queue/Delivery.antt =====
-- A new job on an empty queue is what the next claim returns.
use kernexys.Prelude.{
  ℕ, ◌<◌, ◌≡◌, ap, ◌∙◌, String, true, Option, some, [], ◌∷◌, arith, ok, Result, eq_refl,
}
use kernexys.Json.{Fields, obj, IsFlat, member}
use kernexys.Redis.Laws.{exists_of_field}
use kernexys.Queue.{Config, EnqueueResult, ClaimedJob, enqueue, claim, stamp}
use kernexys.Queue.Scripts.{Env, job_key}
use kernexys.Queue.Effects.{World, AsyncQueueError}
use kernexys.Queue.Reading.{queued, job, calm}
use kernexys.Queue.Enqueue.{IsAdded, known, conflicting, rejected, accepted}
use kernexys.Queue.Repeat.{enqueue_inv}
use kernexys.Queue.Claim.{claimed_job, is_open, claim_popped_open, claim-blmove, popped}

module _ (e : Env) (q : Config) (ttl_pos : 0 < q.job_ttl_seconds) where
  IsAdded-is_open :
      (job_id text : String) (s s' : e.redis.Store)
      → IsAdded e job_id text s s'
      → is_open e job_id s' ≡ true
  IsAdded-is_open job_id text s s' new =
      let status : job e job_id "status" s' ≡ some "queued" =
        ground (arith, new.fields job_id "status", eq_refl job_id) in
      rw (exists_of_field e.redis (job_key job_id) "status" s' status, status)

  -- With a positive TTL, a flat payload that enqueue accepted on an empty queue is what the
  -- next claim returns: the same job id, and a dict with the same members.
  pub claim-enqueue :
      (job_id : String) (d : Fields) (r : EnqueueResult) (now : ℕ) (s s' : e.redis.Store)
      → IsFlat d
      → queued e s ≡ []
      → enqueue e q job_id (obj d) (calm s) ≡ (ok r, calm s')
      → r.created ≡ true
      → (c : Fields) × ((claim e q now (calm s')).0
          ≡ ok (some (record { job_id = job_id; payload = obj c })))
        × ((k : String) → member k c ≡ member k d)
  claim-enqueue job_id d r now s s' flat empty run created =
      elim (enqueue_inv e q ttl_pos job_id (obj d) s s' r run) [
        | known _ _ h ↦ absurd (ground arith)
        | conflicting _ _ _ h ↦ absurd (ground arith)
        | rejected _ _ _ h ↦ absurd (ground arith)
        | accepted _ _ new _ ↦ delivered new
      ]
    where
      delivered :
          IsAdded e job_id (e.codec.dumps (obj d)) s s'
          → (c : Fields) × ((claim e q now (calm s')).0
              ≡ ok (some (record { job_id = job_id; payload = obj c })))
            × ((k : String) → member k c ≡ member k d)
      delivered new =
          let head : queued e s' ≡ job_id ∷ [] = new.last ∙ rw empty in
          let text : job e job_id "payload" s' ≡ some (e.codec.dumps (obj d)) =
            ground (arith, new.fields job_id "payload", eq_refl job_id) in
          let (c, parsed, same) = e.codec.loads-dumps d flat in
          let run : claim e q now (calm s') ≡ (
            claimed_job e job_id (job e job_id "payload" s'),
            calm (stamp e q job_id now (popped e s')),
          ) =
            claim-blmove e q now s'
            ∙ rw head (claim_popped_open e q now job_id s' (IsAdded-is_open job_id _ s s' new)) in
          (
            c,
            ap (λ (x : Result AsyncQueueError (Option ClaimedJob) × World e.redis.Store). x.0) run
                ∙ rw (text, parsed),
            same,
          )
