-- ===== src/Queue/Enqueue.antt =====
-- enqueue: its four outcomes, the capacity bound, and what a repeated request does.
use kernexys.Prelude.{
  ◌≤◌, ◌<◌, ◌≡◌, ◌≢◌, refl, ap, String, Bool, true, false, Option, none, some, [], ◌∷◌, ◌++◌, ◌==◌,
  eq_iff, eq_refl, if◌then◌else◌, arith, length, ok, Bool-cases, inl, inr, ◌⊎◌, leb, pos, negsuc,
}
use kernexys.Prelude.Dict.{lookup}
use kernexys.Json.{Json}
use kernexys.Redis.Laws.{
  field-hset, field-expire, field-rpush, lrange-hset, lrange-expire, lrange-rpush, field_of_missing,
}
use kernexys.Queue.{Config, EnqueueResult, enqueue}
use kernexys.Queue.Scripts.{Env, enqueue_script, is_value, queue_key, processing_key, job_key}
use kernexys.Queue.Keys.{==-job_key, ==-queue-processing}
use kernexys.Queue.Reading.{queued, processing, job, is_known, calm}

abbrev pub answer : Bool → Bool → Bool → EnqueueResult
answer created full conflict = record { created = created; full = full; conflict = conflict }

abbrev pub new_field : String → String → Option String
new_field text f = lookup f (("status", "queued") ∷ ("payload", text) ∷ [])

-- The job is new: its record is fresh, its id is last in the queue, and nothing else changed.
pub record IsAdded (e : Env) (job_id text : String) (s s' : e.redis.Store) : Type 0 where
  pub last : queued e s' ≡ queued e s ++ job_id ∷ []
  pub same_processing : processing e s' ≡ processing e s
  pub fields :
      (j f : String) → job e j f s' ≡ (if job_id == j then new_field text f else job e j f s)

-- What an answered enqueue of `text` may do.
pub data Enqueues (e : Env) (q : Config) (job_id text : String) (s s' : e.redis.Store)
    (r : EnqueueResult) : Type 0 where
  known :
      job e job_id "payload" s ≡ some text
      → s' ≡ s
      → r ≡ answer false false false
      → Enqueues e q job_id text s s' r
  conflicting :
      is_known e job_id s ≡ true
      → job e job_id "payload" s ≢ some text
      → s' ≡ s
      → r ≡ answer false false true
      → Enqueues e q job_id text s s' r
  rejected :
      is_known e job_id s ≡ false
      → q.capacity ≤ length (queued e s)
      → s' ≡ s
      → r ≡ answer false true false
      → Enqueues e q job_id text s s' r
  accepted :
      is_known e job_id s ≡ false
      → length (queued e s) < q.capacity
      → IsAdded e job_id text s s'
      → r ≡ answer true false false
      → Enqueues e q job_id text s s' r

module _ (e : Env) (q : Config) (ttl_pos : 0 < q.job_ttl_seconds) where
  is_value_iff : (x : String) (o : Option String) → is_value x o ≡ true → o ≡ some x
  is_value_iff x none h = ground arith
  is_value_iff x (some y) h = ap some ((eq_iff y x).0 h)

  is_value-ne : (x : String) (o : Option String) → is_value x o ≡ false → o ≢ some x
  is_value-ne x none h = ground arith
  is_value-ne x (some y) h = ground (arith, eq_iff y x)

  pub added : String → String → e.redis.Store → e.redis.Store
  added job_id text s = e.redis.rpush queue_key job_id (
      e.redis.expire (job_key job_id) q.job_ttl_seconds
        (e.redis.hset (job_key job_id) (("status", "queued") ∷ ("payload", text) ∷ []) s))

  field-added :
      (job_id text : String) (s : e.redis.Store) (j f : String)
      → is_known e job_id s ≡ false
      → job e j f (added job_id text s) ≡ (if job_id == j then new_field text f else job e j f s)
  unfolding added
  field-added job_id text s j f new =
      simp
        (
          field-rpush,
          field-expire e.redis (job_key j) f (job_key job_id) q.job_ttl_seconds _ ttl_pos,
          field-hset,
          ==-job_key,
        )
        (ground (arith, eq_iff job_id j, field_of_missing e.redis (job_key job_id) f s new))

  pub added-IsAdded :
      (job_id text : String) (s : e.redis.Store)
      → is_known e job_id s ≡ false
      → IsAdded e job_id text s (added job_id text s)
  unfolding added
  added-IsAdded job_id text s new = record {
    last = simp (
      lrange-rpush,
      lrange-expire e.redis queue_key (job_key job_id) q.job_ttl_seconds _ ttl_pos,
      lrange-hset,
      eq_refl,
    );
    same_processing = simp (
      lrange-rpush,
      lrange-expire e.redis processing_key (job_key job_id) q.job_ttl_seconds _ ttl_pos,
      lrange-hset,
      ==-queue-processing,
    );
    fields = λ j f. field-added job_id text s j f new;
  }

  pub enqueue_script_cases :
      (job_id text : String) (s : e.redis.Store)
      → ((job e job_id "payload" s ≡ some text)
          × (enqueue_script e (job_key job_id) queue_key text q.capacity q.job_ttl_seconds job_id s
              ≡ (pos 0, s)))
        ⊎ (((is_known e job_id s ≡ true)
              × (job e job_id "payload" s ≢ some text)
              × (enqueue_script e
                    (job_key job_id)
                    queue_key
                    text
                    q.capacity
                    q.job_ttl_seconds
                    job_id
                    s
                  ≡ (negsuc 1, s)))
            ⊎ (((is_known e job_id s ≡ false)
                  × (q.capacity ≤ length (queued e s))
                  × (enqueue_script e
                        (job_key job_id)
                        queue_key
                        text
                        q.capacity
                        q.job_ttl_seconds
                        job_id
                        s
                      ≡ (negsuc 0, s)))
                ⊎ ((is_known e job_id s ≡ false)
                    × (length (queued e s) < q.capacity)
                    × (enqueue_script e
                          (job_key job_id)
                          queue_key
                          text
                          q.capacity
                          q.job_ttl_seconds
                          job_id
                          s
                        ≡ (pos 1, added job_id text s)))))
  unfolding enqueue_script added
  enqueue_script_cases job_id text s = elim (Bool-cases (is_known e job_id s)) [
    | inl old ↦ elim (Bool-cases (is_value text (job e job_id "payload" s))) [
      | inl same ↦ inl (is_value_iff text _ same, rw (old, same))
      | inr other ↦ inr (inl (old, is_value-ne text _ other, rw (old, other)))
    ]
    | inr new ↦ elim (Bool-cases (leb q.capacity (e.redis.llen queue_key s))) [
      | inl full ↦
          inr (inr (inl (new, ground (arith, e.redis.llen-lrange queue_key s), rw (new, full))))
      | inr room ↦
          inr (inr (inr (new, ground (arith, e.redis.llen-lrange queue_key s), rw (new, room))))
    ]
  ]

  -- With a positive TTL and the call answered, enqueue returns and does one of four things: a
  -- known id with the same payload, a known id with another payload, and a new id on a queue at
  -- capacity change nothing and are reported as known, conflict and full; a new id on a shorter
  -- queue gets a fresh record and the last place in the queue, with nothing else changed, and
  -- is reported as created.
  pub enqueue_answered :
      (job_id : String) (payload : Json) (s : e.redis.Store)
      → (r : EnqueueResult) × (s' : e.redis.Store) × (enqueue e q job_id payload (calm s)
          ≡ (ok r, calm s'))
        × Enqueues e q job_id (e.codec.dumps payload) s s' r
  unfolding enqueue
  enqueue_answered job_id payload s = elim (enqueue_script_cases job_id (e.codec.dumps payload) s) [
    | inl (same, run) ↦ (answer false false false, s, rw run, known same refl refl)
    | inr (inl (old, other, run)) ↦
        (answer false false true, s, rw run, conflicting old other refl refl)
    | inr (inr (inl (new, full, run))) ↦
        (answer false true false, s, rw run, rejected new full refl refl)
    | inr (inr (inr (new, room, run))) ↦ (
      answer true false false,
      added job_id (e.codec.dumps payload) s,
      rw run,
      accepted new room (added-IsAdded job_id (e.codec.dumps payload) s new) refl,
    )
  ]
