-- ===== src/Deployments/Rollback.antt =====
-- rollback_deployment, and the synchronous inference proxy of app/deployment_routes.py.
use Prim.Native.String.{◌++◌ as append}
use kernexys.Prelude.{ℕ, String, Option, none, some, eqb, if◌then◌else◌, Result, ok, err, ◌>>=◌}
use kernexys.Json.{Json, str, int, obj, Fields, field, end, member}
use kernexys.Kubernetes.{Cluster, DeploymentGatewayError, apply, get}
use kernexys.Registry.{get_version}
use kernexys.Registry.Session.{Database, DatabaseError, ModelVersion, Others, World}
use kernexys.Registry.Routes.{Failure, api, database, uncaught, version_not_found}
use kernexys.Deployments.{deployment_error, reply}
use kernexys.Deployments.Ready.{Raised, ready_endpoint}
use kernexys.Deployments.Resources.{
  Schemas, DeploymentUpsert, DeploymentRead, desired_resource, default,
}

-- value.get(key) of a value that should be a dict
abbrev pub dict_or_uncaught : Option Json → Result Failure Fields
dict_or_uncaught none = ok end
dict_or_uncaught (some (obj d)) = ok d
dict_or_uncaught (some other) = err uncaught

abbrev pub subdict : String → Fields → Result Failure Fields
subdict k d = dict_or_uncaught (member k d)

abbrev invalid_state : String → Failure
invalid_state message = api (record {
  status_code = 502;
  code = "invalid_deployment_state";
  message = message;
  details = none;
})

abbrev pub identity : Option Json → Result Failure String
identity (some (str name)) = ok name
identity other =
    err (invalid_state "The stored ModelDeployment does not contain a valid model identity.")

-- the stored spec and the name of its model
unfoldable pub current_model : Fields → Result Failure (Fields × String)
current_model current = do
  spec ← subdict "spec" current
  model ← subdict "model" spec
  name ← identity (member "name" model)
  ok (spec, name)

abbrev pub upsert_or_502 : Option DeploymentUpsert → Result Failure DeploymentUpsert
upsert_or_502 (some u) = ok u
upsert_or_502 none =
    err (invalid_state "The stored ModelDeployment spec cannot be rolled back safely.")

-- the try block, and the arguments of _desired_resource
unfoldable pub desired_rollback :
    Schemas
    → String
    → String
    → Fields
    → String
    → String
    → ModelVersion
    → Fields
    → Result Failure Fields
unfolding desired_resource
desired_rollback c namespace name spec model version registered current = do
  runtime ← subdict "runtime" spec
  desired ← upsert_or_502 (
      c.upsert model version (default (int 1) (member "replicas" spec))
        (default (int 8080) (member "port" runtime)) (default (obj end) (member "resources" spec)))
  metadata ← subdict "metadata" current
  ok (
      desired_resource namespace name desired registered.runtime_image registered.artifact_digest
        (member "resourceVersion" metadata))

module _ (d : Database) (k : Cluster) (c : Schemas) where
  abbrev pub apply_desired :
      String
      → String
      → Result Failure Fields
      → k.Objects
      → Result Failure DeploymentRead × k.Objects
  apply_desired namespace name (err e) s = (err e, s)
  apply_desired namespace name (ok resource) s =
      let (observed, s') = apply k namespace name resource s in
      (reply d k c namespace name observed, s')

  -- once the registry has answered
  abbrev pub rollback_found :
      String
      → String
      → Fields
      → String
      → String
      → Fields
      → Result DatabaseError (Option ModelVersion)
      → k.Objects
      → Result Failure DeploymentRead × k.Objects
  rollback_found namespace name spec model version current (err e) s = (err (database e), s)
  rollback_found namespace name spec model version current (ok none) s =
      (err (api (version_not_found model version)), s)
  rollback_found namespace name spec model version current (ok (some registered)) s =
      apply_desired namespace name
        (desired_rollback c namespace name spec model version registered current) s

  abbrev pub rollback_current :
      String
      → String
      → String
      → Fields
      → Result Failure (Fields × String)
      → Others d
      → World d
      → k.Objects
      → (Result Failure DeploymentRead × k.Objects) × World d
  rollback_current namespace name version current (err e) others w s = ((err e, s), w)
  rollback_current namespace name version current (ok (spec, model)) others w s =
      let (registered, w') = get_version d model version others w in
      (rollback_found namespace name spec model version current registered s, w')

  abbrev pub rollback_read :
      String
      → String
      → String
      → Result DeploymentGatewayError Fields
      → Others d
      → World d
      → k.Objects
      → (Result Failure DeploymentRead × k.Objects) × World d
  rollback_read namespace name version (err e) others w s =
      ((err (api (deployment_error e namespace name)), s), w)
  rollback_read namespace name version (ok current) others w s =
      rollback_current namespace name version current (current_model current) others w s

  unfoldable pub rollback_deployment :
      String
      → String
      → String
      → Others d
      → World d
      → k.Objects
      → (Result Failure DeploymentRead × k.Objects) × World d
  unfolding get get_version deployment_error
  rollback_deployment namespace name version others w s =
      rollback_read namespace name version (get k namespace name s) others w s

-- What the POST of the proxy comes to: a status with what response.json() makes of the body, or an
-- aiohttp.ClientError or timeout.
pub data Body : Type 0 where
  json : Json → Body
  -- the content type is not JSON: a ClientError
  other_type : Body
  -- a JSONDecodeError
  malformed : Body

pub data Answer : Type 0 where
  responded : ℕ → Body → Answer
  failed : Answer

abbrev proxy_error : ℕ → String → String → Failure
proxy_error status code message =
    api (record { status_code = status; code = code; message = message; details = none })

abbrev runtime_unavailable : Failure
runtime_unavailable = proxy_error 503 "runtime_unavailable" "The model runtime is unavailable."

-- FastAPI validates the reply as a dict.
abbrev pub body_or_error : Body → Result Failure Json
body_or_error (json (obj d)) = ok (obj d)
body_or_error (json other) = err uncaught
body_or_error other_type = err runtime_unavailable
body_or_error malformed = err uncaught

abbrev pub answered : Answer → Result Failure Json
answered (responded status body) =
    if eqb status 200
    then body_or_error body
    else err (proxy_error 502 "runtime_error" "The model runtime failed the request.")
answered failed = err runtime_unavailable

abbrev pub as_failure : Raised → Failure
as_failure (Raised.api e) = api e
as_failure Raised.uncaught = uncaught

abbrev pub proxied : (String → Json → Answer) → String → Result Raised String → Result Failure Json
proxied runtime text (err e) = err (as_failure e)
proxied runtime text (ok endpoint) =
    answered (runtime (append endpoint "/v1/infer") (obj (field "text" (str text) end)))

abbrev pub infer_on :
    (String → Json → Answer)
    → String
    → String
    → String
    → Result DeploymentGatewayError Fields
    → Result Failure Json
infer_on runtime namespace name text (err e) = err (api (deployment_error e namespace name))
infer_on runtime namespace name text (ok deployment) =
    proxied runtime text (ready_endpoint deployment)

unfoldable pub infer :
    (k : Cluster)
    → (String → Json → Answer)
    → String
    → String
    → String
    → k.Objects
    → Result Failure Json
unfolding get deployment_error ready_endpoint
infer k runtime namespace name text s =
    infer_on runtime namespace name text (get k namespace name s)
