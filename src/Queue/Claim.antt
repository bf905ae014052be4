-- ===== src/Queue/Claim.antt =====
-- claim: the head of the queue, in order, and only a job that is not settled.
use kernexys.Prelude.{
  ℕ, ◌≡◌, refl, ap, ◌∙◌, String, Bool, true, false, Option, none, some, List, [], ◌∷◌, ◌++◌, ◌==◌,
  eq_refl, if◌then◌else◌, arith, ok, err, Bool-cases, inl, inr, remove_first, ◌&&◌, not, Result,
}
use kernexys.Prelude.Dict.{lookup, or_else}
use kernexys.Json.{Json}
use kernexys.Redis.Laws.{
  view, field-hset, field-lrem, field-blmove, lrange-hset, lrange-lrem, lrange-blmove, exists_ext,
}
use kernexys.Redis.View
use kernexys.Queue.{
  Config, ClaimedJob, is_settled, claim, stamp, decode, load_payload, claim_popped,
}
use kernexys.Queue.Scripts.{Env, is_terminal, queue_key, processing_key, job_key}
use kernexys.Queue.Effects.{World, AsyncQueueError, invalid}
use kernexys.Queue.Keys.{==-job_key, ==-queue-processing, ==-processing-queue}
use kernexys.Queue.Reading.{queued, processing, job, calm}

-- The status of a job that no worker has to run any more.
abbrev pub is_done : Option String → Bool
is_done none = false
is_done (some status) = is_terminal status

module _ (e : Env) where
  abbrev pub popped : e.redis.Store → e.redis.Store
  popped s = (e.redis.blmove queue_key processing_key s).1

  pub queued-popped :
      (s : e.redis.Store) (job_id : String) (rest : List String)
      → queued e s ≡ job_id ∷ rest
      → queued e (popped s) ≡ rest
  queued-popped s job_id rest h =
      lrange-blmove e.redis queue_key queue_key processing_key s
      ∙ rw h (rw (==-processing-queue, eq_refl))

  pub processing-popped :
      (s : e.redis.Store) (job_id : String) (rest : List String)
      → queued e s ≡ job_id ∷ rest
      → processing e (popped s) ≡ processing e s ++ job_id ∷ []
  processing-popped s job_id rest h =
      lrange-blmove e.redis processing_key queue_key processing_key s
      ∙ rw h (rw (==-queue-processing, eq_refl))

  pub job-popped : (j f : String) (s : e.redis.Store) → job e j f (popped s) ≡ job e j f s
  job-popped j f s = field-blmove e.redis (job_key j) f queue_key processing_key s

  -- whether claim's read finds a job to run
  abbrev pub is_open : String → e.redis.Store → Bool
  is_open job_id s = e.redis.exists (job_key job_id) s && not (is_done (job e job_id "status" s))

  is_settled-eq :
      (job_id : String) (s : e.redis.Store)
      → is_settled (e.redis.hgetall (job_key job_id) (popped s)) ≡ not (is_open job_id s)
  is_settled-eq job_id s = ground (
    arith,
    job-popped job_id "status" s,
    e.redis.exists-hgetall (job_key job_id) (popped s),
    exists_ext e.redis (job_key job_id) (popped s) s (λ f. job-popped job_id f s),
  )

-- What claim's HSET writes.
abbrev pub running_field : String → String → Option String
running_field now f = lookup f (("status", "running") ∷ ("claimed_at", now) ∷ [])

-- The head of the queue is now the youngest claim, stamped and running; nothing else changed.
pub record IsClaimed (e : Env) (now : ℕ) (job_id : String) (rest : List String)
    (s s' : e.redis.Store) : Type 0 where
  pub same_rest : queued e s' ≡ rest
  pub last : processing e s' ≡ processing e s ++ job_id ∷ []
  pub fields :
      (j f : String)
      → job e j f s' ≡ (
          if job_id == j
          then or_else (running_field (e.clock.repr now) f) (job e j f s)
          else job e j f s)

-- The head of the queue is gone; no record changed.
pub record IsDropped (e : Env) (job_id : String) (rest : List String) (s s' : e.redis.Store)
    : Type 0 where
  pub same_rest : queued e s' ≡ rest
  pub unlinked : processing e s' ≡ remove_first job_id (processing e s ++ job_id ∷ [])
  pub fields : (j f : String) → job e j f s' ≡ job e j f s

module _ (e : Env) where
  abbrev pub decoded : String → Option Json → Result AsyncQueueError (Option ClaimedJob)
  decoded job_id none = err invalid
  decoded job_id (some payload) = ok (some (record { job_id = job_id; payload = payload }))

  -- the reply for a stored payload
  abbrev pub claimed_job : String → Option String → Result AsyncQueueError (Option ClaimedJob)
  claimed_job job_id none = err invalid
  claimed_job job_id (some text) = decoded job_id (e.codec.loads text)

-- What an answered claim may do and reply.
pub data Claims (e : Env) (now : ℕ) (s s' : e.redis.Store)
    (r : Result AsyncQueueError (Option ClaimedJob)) : Type 0 where
  idle : queued e s ≡ [] → view e.redis s' ≡ view e.redis s → r ≡ ok none → Claims e now s s' r
  dropped :
      (job_id : String) (rest : List String)
      → queued e s ≡ job_id ∷ rest
      → is_open e job_id s ≡ false
      → IsDropped e job_id rest s s'
      → r ≡ ok none
      → Claims e now s s' r
  taken :
      (job_id : String) (rest : List String)
      → queued e s ≡ job_id ∷ rest
      → is_open e job_id s ≡ true
      → IsClaimed e now job_id rest s s'
      → r ≡ claimed_job e job_id (job e job_id "payload" s)
      → Claims e now s s' r

module _ (e : Env) (q : Config) where
  decode-eq :
      (job_id : String) (p : Option Json) (w : World e.redis.Store)
      → decode e q job_id p w ≡ (decoded e job_id p, w)
  decode-eq job_id none w = refl
  decode-eq job_id (some p) w = refl

  load_payload-eq :
      (job_id : String) (o : Option String) (w : World e.redis.Store)
      → load_payload e q job_id o w ≡ (claimed_job e job_id o, w)
  load_payload-eq job_id none w = refl
  load_payload-eq job_id (some text) w = decode-eq job_id (e.codec.loads text) w

  pub stamped-IsClaimed :
      (now : ℕ) (job_id : String) (rest : List String) (s : e.redis.Store)
      → queued e s ≡ job_id ∷ rest
      → IsClaimed e now job_id rest s (stamp e q job_id now (popped e s))
  unfolding stamp
  stamped-IsClaimed now job_id rest s h = record {
    same_rest = rw lrange-hset (queued-popped e s job_id rest h);
    last = rw lrange-hset (processing-popped e s job_id rest h);
    fields = λ j f. simp (field-hset, ==-job_key, job-popped e j f s);
  }

  unlinked-IsDropped :
      (job_id : String) (rest : List String) (s : e.redis.Store)
      → queued e s ≡ job_id ∷ rest
      → IsDropped e job_id rest s (e.redis.lrem processing_key job_id (popped e s)).1
  unlinked-IsDropped job_id rest s h = record {
    same_rest = rw (lrange-lrem, ==-processing-queue) (queued-popped e s job_id rest h);
    unlinked =
        rw (lrange-lrem, eq_refl) (ap (remove_first job_id) (processing-popped e s job_id rest h));
    fields = λ j f. rw field-lrem (job-popped e j f s);
  }

  pub claim_popped_open :
      (now : ℕ) (job_id : String) (s : e.redis.Store)
      → is_open e job_id s ≡ true
      → claim_popped e q now (some job_id) (calm (popped e s)) ≡ (
        claimed_job e job_id (job e job_id "payload" s),
        calm (stamp e q job_id now (popped e s)),
      )
  claim_popped_open now job_id s open_job =
      rw (is_settled-eq e job_id s)
        (rw (open_job, job-popped e job_id "payload" s) (load_payload-eq job_id _ _))

  claim_popped_settled :
      (now : ℕ) (job_id : String) (s : e.redis.Store)
      → is_open e job_id s ≡ false
      → claim_popped e q now (some job_id) (calm (popped e s))
        ≡ (ok none, calm (e.redis.lrem processing_key job_id (popped e s)).1)
  claim_popped_settled now job_id s closed = rw (is_settled-eq e job_id s) (rw closed)

  pub claim-blmove :
      (now : ℕ) (s : e.redis.Store)
      → claim e q now (calm s) ≡ claim_popped e q now (View.first (queued e s)) (calm (popped e s))
  unfolding claim
  claim-blmove now s = rw (e.redis.blmove-head queue_key processing_key s)

  -- With every call answered, claim does one of three things: on an empty queue it returns no
  -- job and changes nothing that can be read; a head whose record is gone or terminal is
  -- dropped from the queue, no record changes and no job is returned; any other head moves to
  -- the end of the processing list, its record is stamped as running now, nothing else changes,
  -- and the job is returned with its decoded payload, or the error for one that is missing or
  -- does not decode.
  pub claim_answered :
      (now : ℕ) (s : e.redis.Store)
      → (r : Result AsyncQueueError (Option ClaimedJob)) × (s' : e.redis.Store) × (claim e q now
            (calm s)
          ≡ (r, calm s'))
        × Claims e now s s' r
  claim_answered now s = go (queued e s) refl
    where
      head :
          (job_id : String) (rest : List String)
          → queued e s ≡ job_id ∷ rest
          → (r : Result AsyncQueueError (Option ClaimedJob)) × (s' : e.redis.Store) × (claim e q now
                (calm s)
              ≡ (r, calm s'))
            × Claims e now s s' r
      head job_id rest h = elim (Bool-cases (is_open e job_id s)) [
        | inl yes_open ↦ (
          _,
          _,
          claim-blmove now s ∙ rw h (claim_popped_open now job_id s yes_open),
          taken job_id rest h yes_open (stamped-IsClaimed now job_id rest s h) refl,
        )
        | inr closed ↦ (
          _,
          _,
          claim-blmove now s ∙ rw h (claim_popped_settled now job_id s closed),
          dropped job_id rest h closed (unlinked-IsDropped job_id rest s h) refl,
        )
      ]

      go :
          (l : List String)
          → queued e s ≡ l
          → (r : Result AsyncQueueError (Option ClaimedJob)) × (s' : e.redis.Store) × (claim e q now
                (calm s)
              ≡ (r, calm s'))
            × Claims e now s s' r
      go [] h = (
        ok none,
        popped e s,
        claim-blmove now s ∙ rw h,
        idle h (e.redis.observe-blmove queue_key processing_key s ∙ rw h) refl,
      )
      go (job_id ∷ rest) h = head job_id rest h
