-- ===== src/Queue/Finish.antt =====
-- finish: one atomic step that settles a job and takes it off the processing list.
use kernexys.Prelude.{
  ◌<◌, ◌≡◌, refl, String, Option, ◌∷◌, ◌++◌, ◌==◌, eq_refl, if◌then◌else◌, ok, remove_first,
}
use kernexys.Prelude.Dict.{Dict, lookup, or_else}
use kernexys.Json.{Json}
use kernexys.Redis.Laws.{
  field-hset, field-lrem, field-expire, lrange-hset, lrange-lrem, lrange-expire,
}
use kernexys.Queue.{Config, finish, settle, optional, dumped}
use kernexys.Queue.Scripts.{Env, queue_key, processing_key, job_key}
use kernexys.Queue.Keys.{==-job_key, ==-processing-queue}
use kernexys.Queue.Reading.{queued, processing, job, calm}

-- `mapping` is written over the job's record, one entry of the processing list is gone, and
-- nothing else changed.
pub record IsFinished (e : Env) (job_id : String) (mapping : Dict String) (s s' : e.redis.Store)
    : Type 0 where
  pub same_queue : queued e s' ≡ queued e s
  pub unlinked : processing e s' ≡ remove_first job_id (processing e s)
  pub fields :
      (j f : String)
      → job e j f s'
        ≡ (if job_id == j then or_else (lookup f mapping) (job e j f s) else job e j f s)

module _ (e : Env) (q : Config) where
  abbrev pub outcome : String → Option Json → Option String → Dict String
  outcome status result error =
      ("status", status) ∷ (optional "result" (dumped e q result) ++ optional "error" error)

module _ (e : Env) (q : Config) (ttl_pos : 0 < q.job_ttl_seconds) where
  pub settle-IsFinished :
      (job_id : String) (m : Dict String) (s : e.redis.Store)
      → IsFinished e job_id m s (settle e q job_id m s)
  unfolding settle
  settle-IsFinished job_id m s = record {
    same_queue =
        rw (lrange-lrem, ==-processing-queue)
          (rw (lrange-expire e.redis queue_key (job_key job_id) q.job_ttl_seconds _ ttl_pos)
            (lrange-hset e.redis queue_key (job_key job_id) m s));
    unlinked =
        rw (lrange-lrem, eq_refl)
          (rw (lrange-expire e.redis processing_key (job_key job_id) q.job_ttl_seconds _ ttl_pos)
            (rw lrange-hset));
    fields = λ j f. rw field-lrem (
        rw (field-expire e.redis (job_key j) f (job_key job_id) q.job_ttl_seconds _ ttl_pos)
          (rw (field-hset, ==-job_key)));
  }

  -- With a positive TTL and the call answered, finish returns, and in one step writes the
  -- status with the result and the error given over the record, takes the first entry of the
  -- job off the processing list, and changes nothing else.
  pub finish_answered :
      (job_id status : String) (result : Option Json) (error : Option String) (s : e.redis.Store)
      → (s' : e.redis.Store) × (finish e q job_id status result error (calm s) ≡ (ok tt, calm s'))
        × IsFinished e job_id (outcome e q status result error) s s'
  unfolding finish
  finish_answered job_id status result error s =
      (settle e q job_id (outcome e q status result error) s, refl, settle-IsFinished job_id _ s)
