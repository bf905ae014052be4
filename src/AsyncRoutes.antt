-- ===== src/AsyncRoutes.antt =====
-- app/async_routes.py: a job is queued for a deployment that is ready. `hexdigest` is
-- hashlib.sha256(identity).hexdigest(), and `fresh` is str(uuid4()).
pub mod Idempotent
pub mod Jobs
mod Tests
use Prim.Native.String.{◌++◌ as append}
use kernexys.Prelude.{
  ℕ, String, Bool, true, false, Option, none, some, ◌==◌, if◌then◌else◌, Result, ok, err,
}
use kernexys.Json.{Json, str, obj, field, end, Fields}
use kernexys.Errors.{ApiError}
use kernexys.Kubernetes.{Cluster, DeploymentGatewayError, get}
use kernexys.Queue.{Config, EnqueueResult, enqueue}
use kernexys.Queue.Scripts.{Env}
use kernexys.Queue.Effects.{World, AsyncQueueError}
use kernexys.Deployments.{deployment_error}
use kernexys.Deployments.Ready.{Raised, api, ready_endpoint}

-- The status of the response and AsyncInferenceJob(job_id, "queued").
pub record JobReply : Type 0 where
  pub status_code : ℕ
  pub job_id : String

abbrev failure : ℕ → String → String → Raised
failure status code message =
    api (record { status_code = status; code = code; message = message; details = none })

abbrev pub joined : String → String → String
joined a b = append a (append "/" b)

unfoldable pub chosen_job_id : (String → String) → String → String → String → Option String → String
chosen_job_id hexdigest fresh namespace name none = fresh
chosen_job_id hexdigest fresh namespace name (some key) =
    if key == "" then fresh else hexdigest (joined (joined namespace name) key)

unfoldable pub job_payload : String → String → String → String → Json
job_payload namespace name endpoint text = obj (
    field "deployment" (str (joined namespace name))
      (field "endpoint" (str endpoint) (field "text" (str text) end)))

-- the reply, once the queue has answered
unfoldable pub queue_reply : String → Result AsyncQueueError EnqueueResult → Result Raised JobReply
queue_reply job_id (err e) =
    err (failure 503 "redis_unavailable" "The asynchronous queue is unavailable.")
queue_reply job_id (ok result) =
    if result.full
    then err (failure 429 "queue_full" "The asynchronous inference queue is full.")
    else if result.conflict
    then err (
        failure 409 "idempotency_conflict"
          "The idempotency key was already used for a different inference request.")
    else ok (record { status_code = if result.created then 202 else 200; job_id = job_id })

-- gateway.get and _ready_endpoint
unfoldable pub endpoint_for : (k : Cluster) → String → String → k.Objects → Result Raised String
unfolding get ready_endpoint deployment_error
endpoint_for k namespace name objects = elim (get k namespace name objects) [
  | ok deployment ↦ ready_endpoint deployment
  | err e ↦ err (api (deployment_error e namespace name))
]

module _ (e : Env) (k : Cluster) (hexdigest : String → String) where
  -- `none` is the queue of a process that has asynchronous inference disabled
  abbrev pub submit :
      Option Config
      → String
      → Json
      → World e.redis.Store
      → Result Raised JobReply × World e.redis.Store
  submit none job_id payload w =
      (err (failure 503 "async_inference_disabled" "Asynchronous inference is not enabled."), w)
  submit (some q) job_id payload w =
      let (r, w') = enqueue e q job_id payload w in (queue_reply job_id r, w')

  abbrev pub submit_to :
      Option Config
      → String
      → String
      → String
      → String
      → Option String
      → Result Raised String
      → World e.redis.Store
      → Result Raised JobReply × World e.redis.Store
  submit_to queue fresh namespace name text key (err x) w = (err x, w)
  submit_to queue fresh namespace name text key (ok endpoint) w =
      submit queue (chosen_job_id hexdigest fresh namespace name key)
        (job_payload namespace name endpoint text) w

  unfoldable pub enqueue_job :
      Option Config
      → String
      → String
      → String
      → String
      → Option String
      → k.Objects
      → World e.redis.Store
      → Result Raised JobReply × World e.redis.Store
  unfolding enqueue queue_reply endpoint_for chosen_job_id job_payload
  enqueue_job queue fresh namespace name text key objects w =
      submit_to queue fresh namespace name text key (endpoint_for k namespace name objects) w
