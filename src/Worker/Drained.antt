-- ===== src/Worker/Drained.antt =====
-- A worker empties a queue of open jobs and settles each of them.
use kernexys.Prelude.{
  ℕ, ◌<◌, ◌≡◌, ◌≢◌, refl, ap, ◌∙◌, String, true, false, some, List, [], ◌∷◌, length, ok, ◌==◌,
  eq_iff, arith,
}
use kernexys.Json.{Json}
use kernexys.Redis.Laws.{exists_ext}
use kernexys.Queue.{Config}
use kernexys.Queue.Scripts.{Env, job_key}
use kernexys.Queue.Reading.{queued, job, calm}
use kernexys.Queue.Claim.{is_open}
use kernexys.Worker.{Posted, crashes, attempt, done, consume, continued, turn}
use kernexys.Worker.Turn.{verdict, turn-IsServed}

module _ (runtime : String → Json → Posted) (e : Env) where
  -- an open job whose payload decodes to one that does not crash the worker
  pub record IsReady (s : e.redis.Store) (job_id : String) : Type 0 where
    pub opened : is_open e job_id s ≡ true
    pub text : String
    pub payload : Json
    pub stored : job e job_id "payload" s ≡ some text
    pub parsed : e.codec.loads text ≡ some payload
    pub fine : attempt runtime payload ≢ crashes

  abbrev pub AreReady : e.redis.Store → List String → Type 0
  AreReady s [] = Unit {0}
  AreReady s (job_id ∷ jobs) = IsReady s job_id × AreReady s jobs

  -- a job is not among others
  abbrev pub IsApart : String → List String → Type 0
  IsApart job_id [] = Unit {0}
  IsApart job_id (other ∷ jobs) = ((job_id == other) ≡ false) × IsApart job_id jobs

  abbrev pub AreDistinct : List String → Type 0
  AreDistinct [] = Unit {0}
  AreDistinct (job_id ∷ jobs) = IsApart job_id jobs × AreDistinct jobs

  -- the status of a job is what the attempt with the runtime came to
  abbrev pub IsJudged : e.redis.Store → e.redis.Store → String → Type 0
  IsJudged s s' job_id =
      (text : String) (payload : Json)
      → job e job_id "payload" s ≡ some text
      → e.codec.loads text ≡ some payload
      → job e job_id "status" s' ≡ verdict (attempt runtime payload)

  abbrev pub AreJudged : e.redis.Store → e.redis.Store → List String → Type 0
  AreJudged s s' [] = Unit {0}
  AreJudged s s' (job_id ∷ jobs) = IsJudged s s' job_id × AreJudged s s' jobs

  -- the record of a job is the same
  IsSame : e.redis.Store → e.redis.Store → String → Type 0
  IsSame s s' job_id = (f : String) → job e job_id f s' ≡ job e job_id f s

  is_open-IsSame :
      (s s' : e.redis.Store) (j : String) → IsSame s s' j → is_open e j s' ≡ is_open e j s
  unfolding IsSame
  is_open-IsSame s s' j same =
      rw (exists_ext e.redis (job_key j) s' s (λ f. same f), same "status") refl

  AreReady-same :
      (s s' : e.redis.Store) (j : String) (jobs : List String)
      → ((i f : String) → (j == i) ≡ false → job e i f s' ≡ job e i f s)
      → IsApart j jobs
      → AreReady s jobs
      → AreReady s' jobs
  unfolding IsSame
  AreReady-same s s' j [] same apart ready = tt
  AreReady-same s s' j (i ∷ jobs) same (ne, apart) (r, ready) = (
    record {
      opened = is_open-IsSame s s' i (λ f. same i f ne) ∙ r.opened;
      text = r.text;
      payload = r.payload;
      stored = same i "payload" ne ∙ r.stored;
      parsed = r.parsed;
      fine = r.fine;
    },
    AreReady-same s s' j jobs same apart ready,
  )

  AreJudged-same :
      (s s' t : e.redis.Store) (j : String) (jobs : List String)
      → ((i f : String) → (j == i) ≡ false → job e i f s' ≡ job e i f s)
      → IsApart j jobs
      → AreJudged s' t jobs
      → AreJudged s t jobs
  AreJudged-same s s' t j [] same apart judged = tt
  AreJudged-same s s' t j (i ∷ jobs) same (ne, apart) (r, judged) = (
    λ text payload stored parsed. r text payload (same i "payload" ne ∙ stored) parsed,
    AreJudged-same s s' t j jobs same apart judged,
  )

  apart_sym : (i j : String) → (i == j) ≡ false → (j == i) ≡ false
  apart_sym i j h = ground (arith, eq_iff i j, eq_iff j i)

  -- a record has one payload
  one_payload :
      (s : e.redis.Store) (j text text' : String) (payload payload' : Json)
      → job e j "payload" s ≡ some text
      → e.codec.loads text ≡ some payload
      → job e j "payload" s ≡ some text'
      → e.codec.loads text' ≡ some payload'
      → payload ≡ payload'
  one_payload s j text text' payload payload' a b c d = cc

  module _ (q : Config) where
    consume-cons :
        (now : ℕ) (later : List ℕ) (s s₁ s' : e.redis.Store)
        → turn runtime e q now (calm s) ≡ (ok done, calm s₁)
        → consume runtime e q later (calm s₁) ≡ (done, calm s')
        → consume runtime e q (now ∷ later) (calm s) ≡ (done, calm s')
    unfolding consume
    consume-cons now later s s₁ s' h k =
        ap (λ x. continued runtime e q x.0 x.1 (consume runtime e q later x.1)) h ∙ k

  module _ (q : Config) (ttl_pos : 0 < q.job_ttl_seconds) where
    -- With a positive TTL and every call answered: when the queue holds distinct open jobs
    -- whose payloads decode to ones that do not crash the worker, a consume that makes one
    -- round for each of them ends normally with an empty queue, the status of each job is
    -- succeeded or failed as its attempt with the runtime was, and no record of another job is
    -- changed.
    pub consume-drained :
        (nows : List ℕ) (jobs : List String) (s : e.redis.Store)
        → length nows ≡ length jobs
        → queued e s ≡ jobs
        → AreReady s jobs
        → AreDistinct jobs
        → (s' : e.redis.Store) × (consume runtime e q nows (calm s) ≡ (done, calm s'))
          × (queued e s' ≡ [])
          × AreJudged s s' jobs
          × ((j f : String) → IsApart j jobs → job e j f s' ≡ job e j f s)
    unfolding consume
    consume-drained [] [] s long waiting ready distinct = (s, refl, waiting, tt, λ j f apart. refl)
    consume-drained [] (j ∷ jobs) s long waiting ready distinct = absurd (omega arith)
    consume-drained (now ∷ later) [] s long waiting ready distinct = absurd (omega arith)
    consume-drained (now ∷ later) (j ∷ jobs) s long waiting (r, ready) (apart, distinct) =
        let first =
          turn-IsServed runtime e q ttl_pos now j r.text r.payload jobs s waiting r.opened r.stored
            r.parsed r.fine in
        let served = first.2 in
        let rest =
          consume-drained later jobs first.0 (omega arith) served.waiting
            (AreReady-same s first.0 j jobs served.others apart ready) distinct in
        (
          rest.0,
          consume-cons q now later s first.0 rest.0 first.1 rest.1,
          rest.2,
          (
            λ text payload stored parsed.
                rest.4 j "status" apart
                ∙ served.judged
                ∙ ap (λ (x : Json). verdict (attempt runtime x))
                    (one_payload s j r.text text r.payload payload r.stored r.parsed stored parsed),
            AreJudged-same s first.0 rest.0 j jobs served.others apart rest.3,
          ),
          λ i f far. rest.4 i f far.1 ∙ served.others i f (apart_sym i j far.0),
        )
