-- ===== src/Worker/Turn.antt =====
-- One round of a worker on a queue that answers.
use kernexys.Prelude.{
  ℕ, ◌<◌, ◌≡◌, ◌≢◌, refl, ap, ◌∙◌, String, true, Option, none, some, List, [], ◌∷◌, ◌++◌,
  remove_first, ok, eq_refl, false, ◌==◌,
}
use kernexys.Json.{Json}
use kernexys.Queue.{Config, stamp}
use kernexys.Queue.Scripts.{Env}
use kernexys.Queue.Reading.{queued, processing, job, calm}
use kernexys.Queue.Claim.{is_open, claim-blmove, claim_popped_open, popped, stamped-IsClaimed}
use kernexys.Queue.Finish.{finish_answered}
use kernexys.Worker.{
  Posted, Attempt, succeeds, fails, crashes, attempt, done, settled, process_job, turn,
}

abbrev pub verdict : Attempt → Option String
verdict (succeeds result) = some "succeeded"
verdict fails = some "failed"
verdict crashes = none

-- The job is off both lists, up to further entries, and has the status of the attempt.
pub record IsServed (e : Env) (job_id : String) (rest : List String) (a : Attempt)
    (s s' : e.redis.Store) : Type 0 where
  pub waiting : queued e s' ≡ rest
  pub held : processing e s' ≡ remove_first job_id (processing e s ++ job_id ∷ [])
  pub judged : job e job_id "status" s' ≡ verdict a
  pub others : (j f : String) → (job_id == j) ≡ false → job e j f s' ≡ job e j f s

module _ (runtime : String → Json → Posted) (e : Env) (q : Config)
    (ttl_pos : 0 < q.job_ttl_seconds) where
  settled-lem :
      (job_id : String) (a : Attempt) (s : e.redis.Store)
      → a ≢ crashes
      → (s' : e.redis.Store) × (settled runtime e q job_id a (calm s) ≡ (ok done, calm s'))
        × (queued e s' ≡ queued e s)
        × (processing e s' ≡ remove_first job_id (processing e s))
        × (job e job_id "status" s' ≡ verdict a)
        × ((j f : String) → (job_id == j) ≡ false → job e j f s' ≡ job e j f s)
  settled-lem job_id crashes s h = absurd (h refl)
  settled-lem job_id (succeeds result) s h =
      let f = finish_answered e q ttl_pos job_id "succeeded" result none s in
      (
        f.0,
        rw f.1 refl,
        f.2.same_queue,
        f.2.unlinked,
        rw (f.2.fields job_id "status", eq_refl job_id) refl,
        λ j k ne. f.2.fields j k ∙ rw ne refl,
      )
  settled-lem job_id fails s h =
      let f =
        finish_answered e q ttl_pos job_id "failed" none (some "The model runtime request failed.")
          s in
      (
        f.0,
        rw f.1 refl,
        f.2.same_queue,
        f.2.unlinked,
        rw (f.2.fields job_id "status", eq_refl job_id) refl,
        λ j k ne. f.2.fields j k ∙ rw ne refl,
      )

  -- With a positive TTL and every call answered: when the head of the queue is an open job
  -- whose payload decodes to one that does not crash the worker, one round of consume ends
  -- normally, the head is off the queue, its first entry in the processing list is gone, and
  -- its status is succeeded or failed as the attempt with the runtime was; no record of another job
  -- is changed.
  pub turn-IsServed :
      (now : ℕ) (job_id text : String) (payload : Json) (rest : List String) (s : e.redis.Store)
      → queued e s ≡ job_id ∷ rest
      → is_open e job_id s ≡ true
      → job e job_id "payload" s ≡ some text
      → e.codec.loads text ≡ some payload
      → attempt runtime payload ≢ crashes
      → (s' : e.redis.Store) × (turn runtime e q now (calm s) ≡ (ok done, calm s'))
        × IsServed e job_id rest (attempt runtime payload) s s'
  unfolding turn process_job
  turn-IsServed now job_id text payload rest s head opened stored parsed fine =
      let taken = stamped-IsClaimed e q now job_id rest s head in
      let f =
        settled-lem job_id (attempt runtime payload) (stamp e q job_id now (popped e s)) fine in
      (
        f.0,
        rw (claim-blmove e q now s)
            (rw head (rw (claim_popped_open e q now job_id s opened) (rw (stored, parsed) f.1))),
        record {
          waiting = f.2 ∙ taken.same_rest;
          held = f.3 ∙ ap (remove_first job_id) taken.last;
          judged = f.4;
          others = λ j k ne. f.5 j k ne ∙ taken.fields j k ∙ rw ne refl;
        },
      )
