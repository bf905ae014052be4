-- ===== src/Worker/Tests.antt =====
-- The theorems at a queue with one job, and the address that a job is posted to.
use kernexys.Prelude.{◌≡◌, ◌≢◌, refl, ap, String, Bool, true, false, some, List, [], ◌∷◌, arith}
use mathlib.Core.Bool.{false≢true}
use kernexys.Json.{Json, str, obj, field, end}
use kernexys.Json.Sample.{sample}
use kernexys.Queue.{enqueue}
use kernexys.Queue.Scripts.{job_key, queue_key, enqueue_script}
use kernexys.Queue.Reading.{calm, queued, job}
use kernexys.Queue.Claim.{is_open}
use kernexys.Worker.{Posted, responded, Attempt, succeeds, crashes, attempt, rstrip, done, consume}
use kernexys.Worker.Drained.{AreReady, AreJudged, IsApart, consume-drained}
use kernexys.Queue.Sample.{env, config, good, one_job}

rstrip_slashes : rstrip "http://m:80//" ≡ "http://m:80"
unfolding rstrip
rstrip_slashes = refl

-- a runtime that answers with what it was sent
abbrev echo : String → Json → Posted
echo url body = responded 200 (some body)

attempt-good : attempt echo good ≡ succeeds (some (obj (field "text" (str "good") end)))
unfolding attempt rstrip
attempt-good = refl

abbrev job_text : String
job_text = sample.dumps good

abbrev is_crash : Attempt → Bool
is_crash crashes = true
is_crash other = false

good_runs : attempt echo good ≢ crashes
unfolding attempt rstrip
good_runs h = false≢true (ap is_crash h)

one_job-queued : queued env one_job ≡ "a" ∷ []
unfolding enqueue enqueue_script sample job_key queue_key
one_job-queued = refl

one_job-is_open : is_open env "a" one_job ≡ true
unfolding enqueue enqueue_script sample job_key queue_key
one_job-is_open = refl

one_job-job : job env "a" "payload" one_job ≡ some job_text
unfolding enqueue enqueue_script sample job_key queue_key
one_job-job = refl

job_text-parsed : sample.loads job_text ≡ some good
unfolding sample
job_text-parsed = refl

-- the store once a second job was enqueued
two_jobs : env.redis.Store
two_jobs = (enqueue env config "b" good (calm one_job)).1.store

abbrev jobs : List String
jobs = "a" ∷ "b" ∷ []

two_jobs-queued : queued env two_jobs ≡ jobs
unfolding two_jobs enqueue enqueue_script sample job_key queue_key
two_jobs-queued = refl

two_jobs-AreReady : AreReady echo env two_jobs jobs
unfolding two_jobs enqueue enqueue_script sample job_key queue_key
two_jobs-AreReady = (
  record {
    opened = refl;
    text = job_text;
    payload = good;
    stored = refl;
    parsed = job_text-parsed;
    fine = good_runs;
  },
  (
    record {
      opened = refl;
      text = job_text;
      payload = good;
      stored = refl;
      parsed = job_text-parsed;
      fine = good_runs;
    },
    tt,
  ),
)

consume-drained_example :
    (s' : env.redis.Store) × (consume echo env config (100 ∷ 101 ∷ []) (calm two_jobs)
      ≡ (done, calm s'))
    × (queued env s' ≡ [])
    × AreJudged echo env two_jobs s' jobs
    × ((j f : String) → IsApart echo env j jobs → job env j f s' ≡ job env j f two_jobs)
consume-drained_example =
    consume-drained echo env config (omega arith) (100 ∷ 101 ∷ []) jobs two_jobs refl
      two_jobs-queued two_jobs-AreReady ((refl, tt), (tt, tt))
