-- ===== src/AsyncRoutes/Tests.antt =====
-- A request with an idempotency key, twice, to a deployment that is ready.
use kernexys.Prelude.{◌≡◌, refl, String, some, ok, arith}
use kernexys.Json.{member, str, obj, arr, cons, nil, Fields, field, end}
use kernexys.Json.Sample.{sample}
use kernexys.Redis.Memory.{Memory, empty}
use kernexys.Kubernetes.{Cluster, value}
use kernexys.Queue.Sample.{env, config}
use kernexys.Queue.Scripts.{job_key, queue_key, enqueue_script}
use kernexys.Queue.Reading.{calm}
use kernexys.AsyncRoutes.Jobs.{is_job_id, get_job, get_job-finish}
use kernexys.Prelude.{ℕ, none, Bool, true, false, leb, ◌&&◌, ◌||◌}
use kernexys.Queue.{finish}
use kernexys.AsyncRoutes.{enqueue_job, endpoint_for}
use kernexys.AsyncRoutes.Idempotent.{enqueue_job-enqueue_job}

abbrev served : Fields
served =
    field "status"
      (obj (
        field "endpoint" (str "http://iris") (
          field "conditions"
            (arr
              (cons (obj (field "type" (str "Available") (field "status" (str "True") end))) nil))
            end)))
      end

abbrev cluster : Cluster
cluster = record {
  Objects = Unit {0};
  get_api_resources = λ s. value tt;
  patch = λ namespace name object s. (value (some object), s);
  get_object = λ namespace name s. value served;
  delete_object = λ namespace name s. (value tt, s);
}

abbrev digest : String → String
digest identity = identity

abbrev queued_once : Memory
queued_once =
    (enqueue_job env cluster digest (some config) "f1" "prod" "iris" "hello" (some "k") tt
      (calm empty)).1.store

iris_ready : endpoint_for cluster "prod" "iris" tt ≡ ok "http://iris"
unfolding endpoint_for
iris_ready = refl

run_enqueue_job :
    enqueue_job env cluster digest
      (some config)
      "f1"
      "prod"
      "iris"
      "hello"
      (some "k")
      tt
      (calm empty)
    ≡ (ok (record { status_code = 202; job_id = "prod/iris/k" }), calm queued_once)
unfolding enqueue_job enqueue_script sample job_key queue_key
run_enqueue_job = refl

enqueue_job-enqueue_job_example :
    enqueue_job env cluster digest
      (some config)
      "f2"
      "prod"
      "iris"
      "hello"
      (some "k")
      tt
      (calm queued_once)
    ≡ (ok (record { status_code = 200; job_id = "prod/iris/k" }), calm queued_once)
enqueue_job-enqueue_job_example =
    enqueue_job-enqueue_job env cluster digest config (omega arith) "prod" "iris" "hello" "k"
      "http://iris" refl tt iris_ready "f1" "f2"
      (record { status_code = 202; job_id = "prod/iris/k" }) empty queued_once run_enqueue_job

is_alnum : ℕ → Bool
is_alnum c = (leb b'0' c && leb c b'9') || (leb b'a' c && leb c b'z')

plain_id : is_job_id is_alnum "f1-" ≡ true
unfolding is_job_id is_alnum
plain_id = refl

bare_dashes : is_job_id is_alnum "--" ≡ false
unfolding is_job_id is_alnum
bare_dashes = refl

get_job-finish_example :
    (s' : Memory) × (c : Fields) × (finish env config "f1-" "succeeded"
        (some (obj (field "label" (str "positive") end)))
        none
        (calm empty)
      ≡ (ok tt, calm s'))
    × (get_job env is_alnum (some config) "f1-" (calm s') ≡ (
      ok (record { job_id = "f1-"; status = "succeeded"; result = some c; error = none }),
      calm s',
    ))
    × ((k : String) → member k c ≡ member k (field "label" (str "positive") end))
get_job-finish_example =
    get_job-finish env config is_alnum "f1-" (field "label" (str "positive") end) empty
      (omega arith) plain_id tt
