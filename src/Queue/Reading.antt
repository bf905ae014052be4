-- ===== src/Queue/Reading.antt =====
-- What the statements about the queue read of a store.
use kernexys.Prelude.{Bool, String, Option, List, []}
use kernexys.Queue.Scripts.{Env, hget, queue_key, processing_key, job_key}
use kernexys.Queue.Effects.{World}

module _ (e : Env) where
  abbrev pub queued : e.redis.Store → List String
  queued s = e.redis.lrange queue_key s

  abbrev pub processing : e.redis.Store → List String
  processing s = e.redis.lrange processing_key s

  abbrev pub job : String → String → e.redis.Store → Option String
  job job_id f s = hget e (job_key job_id) f s

  abbrev pub is_known : String → e.redis.Store → Bool
  is_known job_id s = e.redis.exists (job_key job_id) s

-- A world in which every call is answered.
abbrev pub calm : {S : Type 0} → S → World S
calm s = record { store = s; faults = [] }
