-- ===== src/AsyncRoutes/Jobs.antt =====
-- get_job: what a client reads of its job, and that a settled job reads as it was settled.
use Prim.Native.String.{◌∷◌ as char, [] as blank, count}
use Prim.Native.Char.{code}
use kernexys.Prelude.{
  ℕ, ◌<◌, ◌≡◌, refl, ◌∙◌, String, Bool, true, not, ◌&&◌, Option, none, some, Result, ok, err, ◌==◌,
  eqb, leb, if◌then◌else◌, eq_refl,
}
use kernexys.Prelude.Dict.{Dict, lookup, nonempty}
use kernexys.Json.{Json, null, obj, Fields, member, IsFlat}
use kernexys.Redis.Laws.{nonempty_of_lookup}
use kernexys.Queue.{Config, get, finish}
use kernexys.Queue.Scripts.{Env, job_key}
use kernexys.Queue.Effects.{World, AsyncQueueError}
use kernexys.Queue.Reading.{calm, job}
use kernexys.Queue.Finish.{finish_answered}
use kernexys.Deployments.Ready.{Raised, api, uncaught}

pub record AsyncInferenceJob : Type 0 where
  pub job_id : String
  pub status : String
  pub result : Option Fields
  pub error : Option String

-- text.replace("-", "")
unfoldable pub without_dashes : String → String
without_dashes blank = ""
without_dashes (char c s) =
    let rest : String = without_dashes s in if eqb (code c) b'-' then rest else char c rest

unfoldable pub all_alnum : (ℕ → Bool) → String → Bool
all_alnum is_alnum blank = true
all_alnum is_alnum (char c s) = is_alnum (code c) && all_alnum is_alnum s

-- len(job_id) <= 64 and job_id.replace("-", "").isalnum(); `is_alnum` is str.isalnum of a character
unfoldable pub is_job_id : (ℕ → Bool) → String → Bool
unfolding without_dashes all_alnum
is_job_id is_alnum job_id =
    let stripped : String = without_dashes job_id in
    leb (count job_id) 64 && not (stripped == "") && all_alnum is_alnum stripped

abbrev failure : ℕ → String → String → Raised
failure status code message =
    api (record { status_code = status; code = code; message = message; details = none })

abbrev pub job_not_found : Raised
job_not_found = failure 404 "job_not_found" "The inference job was not found."

-- json.loads(value["result"]), validated as dict or None
abbrev pub loaded : Option Json → Result Raised (Option Fields)
loaded none = err uncaught
loaded (some null) = ok none
loaded (some (obj d)) = ok (some d)
loaded (some other) = err uncaught

module _ (e : Env) where
  abbrev pub result_of : Option String → Result Raised (Option Fields)
  result_of none = ok none
  result_of (some text) = loaded (e.codec.loads text)

  abbrev pub with_status :
      String
      → Option String
      → Option String
      → Result Raised (Option Fields)
      → Result Raised AsyncInferenceJob
  with_status job_id status error (err x) = err x
  with_status job_id none error (ok result) = err uncaught
  with_status job_id (some status) error (ok result) =
      ok (record { job_id = job_id; status = status; result = result; error = error })

  abbrev pub job_reply :
      String → Result AsyncQueueError (Option (Dict String)) → Result Raised AsyncInferenceJob
  job_reply job_id (err x) =
      err (failure 503 "redis_unavailable" "The asynchronous queue is unavailable.")
  job_reply job_id (ok none) = err job_not_found
  job_reply job_id (ok (some value)) =
      with_status job_id (lookup "status" value) (lookup "error" value)
        (result_of (lookup "result" value))

  abbrev pub read_from :
      Option Config
      → String
      → World e.redis.Store
      → Result Raised AsyncInferenceJob × World e.redis.Store
  read_from none job_id w =
      (err (failure 503 "async_inference_disabled" "Asynchronous inference is not enabled."), w)
  read_from (some q) job_id w = let (r, w') = get e q job_id w in (job_reply job_id r, w')

  unfoldable pub get_job :
      (ℕ → Bool)
      → Option Config
      → String
      → World e.redis.Store
      → Result Raised AsyncInferenceJob × World e.redis.Store
  unfolding get
  get_job is_alnum queue job_id w =
      if is_job_id is_alnum job_id then read_from queue job_id w else (err job_not_found, w)

  -- With a positive TTL and every Redis call answered: after a job with a well-formed id is
  -- finished as succeeded with a result whose values are texts, get_job replies with that id,
  -- the status succeeded, a result with the same member under every key, and the error that the
  -- record had.
  pub get_job-finish :
      (q : Config) (is_alnum : ℕ → Bool) (job_id : String) (d : Fields) (s : e.redis.Store)
      → 0 < q.job_ttl_seconds
      → is_job_id is_alnum job_id ≡ true
      → IsFlat d
      → (s' : e.redis.Store) × (c : Fields) × (finish e q job_id "succeeded"
            (some (obj d))
            none
            (calm s)
          ≡ (ok tt, calm s'))
        × (get_job is_alnum (some q) job_id (calm s') ≡ (
          ok (record {
            job_id = job_id;
            status = "succeeded";
            result = some c;
            error = job e job_id "error" s;
          }),
          calm s',
        ))
        × ((k : String) → member k c ≡ member k d)
  unfolding get_job
  get_job-finish q is_alnum job_id d s ttl_pos named flat =
      let f = finish_answered e q ttl_pos job_id "succeeded" (some (obj d)) none s in
      let status : job e job_id "status" f.0 ≡ some "succeeded" =
        f.2.fields job_id "status" ∙ rw eq_refl refl in
      let result : job e job_id "result" f.0 ≡ some (e.codec.dumps (obj d)) =
        f.2.fields job_id "result" ∙ rw eq_refl refl in
      let error : job e job_id "error" f.0 ≡ job e job_id "error" s =
        f.2.fields job_id "error" ∙ rw eq_refl refl in
      let parsed = e.codec.loads-dumps d flat in
      let there : nonempty (e.redis.hgetall (job_key job_id) f.0) ≡ true =
        nonempty_of_lookup "status" _ status in
      (f.0, parsed.0, f.1, rw (named, there, status, result, error, parsed.1) refl, parsed.2)
