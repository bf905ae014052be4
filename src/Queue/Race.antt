-- ===== src/Queue/Race.antt =====
-- claim reads the record and writes it in two calls. A finish that lands between them is overwritten.
use kernexys.Prelude.{
  ℕ, ◌<◌, ◌≡◌, ap, ◌∙◌, String, some, List, [], ◌∷◌, eq_refl, arith, count, count-append,
  count-remove_first,
}
use kernexys.Prelude.Dict.{Dict}
use kernexys.Redis.Laws.{field-hset, lrange-hset}
use kernexys.Queue.{Config, stamp, settle}
use kernexys.Queue.Scripts.{Env, recover_processing_script}
use kernexys.Queue.Keys.{==-job_key}
use kernexys.Queue.Reading.{queued, processing}
use kernexys.Queue.Claim.{popped, queued-popped, processing-popped}
use kernexys.Queue.Finish.{IsFinished, settle-IsFinished}
use kernexys.Queue.Sweep.{JobState, iterate, sweep_one, job_state, state-recover_processing}

module _ (e : Env) (q : Config) (ttl_pos : 0 < q.job_ttl_seconds) where
  -- One worker pops the job, another settles it, and the first then writes its claim.
  abbrev pub raced : String → Dict String → ℕ → e.redis.Store → e.redis.Store
  raced job_id mapping now s = stamp e q job_id now (settle e q job_id mapping (popped e s))

  pub state-raced :
      (job_id : String) (rest : List String) (mapping : Dict String) (now : ℕ) (s : e.redis.Store)
      → queued e s ≡ job_id ∷ rest
      → count job_id rest ≡ 0
      → count job_id (processing e s) ≡ 0
      → job_state e job_id (raced job_id mapping now s) ≡ record {
        status = some "running";
        claimed_at = some (e.clock.repr now);
        waiting = 0;
        held = 0;
      }
  unfolding stamp
  state-raced job_id rest mapping now s head a b =
      let h : IsFinished e job_id mapping (popped e s) (settle e q job_id mapping (popped e s)) =
        settle-IsFinished e q ttl_pos job_id mapping (popped e s) in
      simp (field-hset, lrange-hset, ==-job_key, eq_refl)
        (ground (
          arith,
          eq_refl job_id,
          ap (count job_id) h.same_queue,
          ap (count job_id) h.unlinked,
          ap (count job_id) (queued-popped e s job_id rest head),
          ap (count job_id) (processing-popped e s job_id rest head),
          count-append job_id (processing e s) (job_id ∷ []),
          count-remove_first job_id job_id (processing e (popped e s)),
        ))

  -- With a positive TTL: if another client settles a job after claim has read it and before
  -- claim stamps it, and the job has no further entry, then its status is running again, it
  -- stands in neither list, and no sweep changes that.
  pub raced-is_lost :
      (job_id : String) (rest : List String) (mapping : Dict String) (now : ℕ) (s : e.redis.Store)
      → queued e s ≡ job_id ∷ rest
      → count job_id rest ≡ 0
      → count job_id (processing e s) ≡ 0
      → (before later : String)
      → job_state e job_id (recover_processing_script e before later (raced job_id mapping now s)).1
        ≡ record {
          status = some "running";
          claimed_at = some (e.clock.repr now);
          waiting = 0;
          held = 0;
        }
  raced-is_lost job_id rest mapping now s head a b before later =
      let h = state-raced job_id rest mapping now s head a b in
      state-recover_processing e before later job_id (raced job_id mapping now s)
      ∙ ap
          (λ k.
            iterate k (sweep_one e before later) (job_state e job_id (raced job_id mapping now s)))
          (ap (λ (x : JobState). x.held) h)
      ∙ h
