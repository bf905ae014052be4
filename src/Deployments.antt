-- ===== src/Deployments.antt =====
-- app/deployment_routes.py: what the deployment API sends to Kubernetes and what it reads back.
-- A value that pydantic validates goes through the interface Schemas.
pub mod Resources
pub mod Ready
pub mod Available
pub mod Desired
pub mod Observed
pub mod Applied
pub mod Rollback
pub mod Restored
mod Tests
use Prim.Native.String.{◌++◌ as append}
use kernexys.Prelude.{
  ℕ, String, Bool, true, false, ◌||◌, Option, none, some, ◌==◌, eqb, if◌then◌else◌, Result, ok, err,
  ℤ, pos,
}
use kernexys.Json.{Json, Fields, obj}
use kernexys.Errors.{ApiError}
use kernexys.Kubernetes.{Cluster, DeploymentGatewayError, apply, get, delete}
use kernexys.Registry.{get_version}
use kernexys.Registry.Session.{Database, DatabaseError, ModelVersion, Others, World}
use kernexys.Registry.Routes.{Failure, api, database, version_not_found}
use Resources.{Schemas, DeploymentUpsert, DeploymentRead, desired_resource, resource_to_read}

abbrev gateway_error : ℕ → String → String → ApiError
gateway_error status code message = record {
  status_code = status;
  code = code;
  message = message;
  details = none;
}

unfoldable pub deployment_error : DeploymentGatewayError → String → String → ApiError
deployment_error error namespace name =
    if eqb error.status 404
    then gateway_error 404 "deployment_not_found"
        (append "Deployment '" (append namespace (append "/" (append name "' was not found."))))
    else if eqb error.status 409
    then gateway_error 409 "deployment_conflict"
        "The desired state conflicts with another Kubernetes field manager or update."
    else if eqb error.status 422
    then gateway_error 422 "deployment_rejected"
        "Kubernetes rejected the ModelDeployment desired state."
    else if eqb error.status 401 || eqb error.status 403
    then gateway_error 503 "kubernetes_forbidden"
        "The control API is not authorized to manage ModelDeployments."
    else gateway_error 503 "kubernetes_unavailable" "The Kubernetes API is unavailable."

-- _resource_to_read, or its 502
abbrev pub read_or_502 : Option DeploymentRead → Result Failure DeploymentRead
read_or_502 (some read) = ok read
read_or_502 none = err (
    api (
      gateway_error 502 "invalid_deployment_state"
        "Kubernetes returned a malformed ModelDeployment resource."))

module _ (d : Database) (k : Cluster) (c : Schemas) where
  -- the observed object as the reply
  abbrev pub reply :
      String → String → Result DeploymentGatewayError Fields → Result Failure DeploymentRead
  reply namespace name (err e) = err (api (deployment_error e namespace name))
  reply namespace name (ok observed) = read_or_502 (resource_to_read c observed)

  unfoldable pub get_deployment : String → String → k.Objects → Result Failure DeploymentRead
  unfolding deployment_error get resource_to_read
  get_deployment namespace name s = reply namespace name (get k namespace name s)

  abbrev pub deletion : String → String → Result DeploymentGatewayError Bool → Result Failure ℕ
  deletion namespace name (err e) = err (api (deployment_error e namespace name))
  deletion namespace name (ok b) = ok 204

  unfoldable pub delete_deployment : String → String → k.Objects → Result Failure ℕ × k.Objects
  unfolding deployment_error delete
  delete_deployment namespace name s =
      let (r, s') = delete k namespace name s in (deletion namespace name r, s')

  -- put_deployment, once the registry has answered
  abbrev pub put_found :
      String
      → String
      → DeploymentUpsert
      → Result DatabaseError (Option ModelVersion)
      → k.Objects
      → Result Failure DeploymentRead × k.Objects
  put_found namespace name body (err e) s = (err (database e), s)
  put_found namespace name body (ok none) s =
      (err (api (version_not_found body.model body.version)), s)
  put_found namespace name body (ok (some version)) s =
      let (observed, s') =
        apply k namespace name
          (desired_resource namespace name body version.runtime_image version.artifact_digest none)
          s in
      (reply namespace name observed, s')

  unfoldable pub put_deployment :
      String
      → String
      → DeploymentUpsert
      → Others d
      → World d
      → k.Objects
      → (Result Failure DeploymentRead × k.Objects) × World d
  unfolding deployment_error apply get_version desired_resource resource_to_read
  put_deployment namespace name body others w s =
      let (version, w') = get_version d body.model body.version others w in
      (put_found namespace name body version s, w')
