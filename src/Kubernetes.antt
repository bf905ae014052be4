-- ===== src/Kubernetes.antt =====
-- app/kubernetes.py: the gateway to the ModelDeployment objects. The client of the Kubernetes API is
-- an interface, whose calls end in one of three ways; a method maps them to a value or an error.
use kernexys.Prelude.{
  ℕ, String, Bool, true, false, Option, none, some, ◌==◌, eqb, if◌then◌else◌, Result, ok, err,
}
use kernexys.Json.{Fields}

-- How a call of the client ends: `unreachable` is a TimeoutError or an aiohttp.ClientError.
pub data Outcome (A : Type 0) : Type 0 where
  value : A → Outcome A
  api_exception : Option ℕ → Option String → Outcome A
  unreachable : Outcome A

pub record DeploymentGatewayError : Type 0 where
  pub status : ℕ
  pub reason : String

-- CustomObjectsApi over the objects of the cluster; the group, version and plural are fixed.
pub record Cluster : Type 1 where
  pub Objects : Type 0
  pub get_api_resources : Objects → Outcome (Unit {0})
  -- server-side apply: the object, or nothing when the client knows no type for the response
  pub patch : String → String → Fields → Objects → Outcome (Option Fields) × Objects
  pub get_object : String → String → Objects → Outcome Fields
  pub delete_object : String → String → Objects → Outcome (Unit {0}) × Objects

-- exc.status or 503
abbrev pub status_or_503 : Option ℕ → ℕ
status_or_503 none = 503
status_or_503 (some n) = if eqb n 0 then 503 else n

-- exc.reason or "request failed"
abbrev pub reason_or_failed : Option String → String
reason_or_failed none = "request failed"
reason_or_failed (some s) = if s == "" then "request failed" else s

unfoldable pub execute : {A : Type 0} → Outcome A → Result DeploymentGatewayError A
execute (value a) = ok a
execute (api_exception status reason) =
    err (record { status = status_or_503 status; reason = reason_or_failed reason })
execute unreachable = err (record { status = 503; reason = "Kubernetes API is unavailable" })

module _ (k : Cluster) where
  unfoldable pub check_ready : k.Objects → Result DeploymentGatewayError (Unit {0})
  unfolding execute
  check_ready s = execute (k.get_api_resources s)

  unfoldable pub get : String → String → k.Objects → Result DeploymentGatewayError Fields
  unfolding execute
  get namespace name s = execute (k.get_object namespace name s)

  abbrev pub applied :
      String
      → String
      → Result DeploymentGatewayError (Option Fields)
      → k.Objects
      → Result DeploymentGatewayError Fields
  applied namespace name (err e) s = err e
  applied namespace name (ok (some object)) s = ok object
  applied namespace name (ok none) s = get namespace name s

  unfoldable pub apply :
      String → String → Fields → k.Objects → Result DeploymentGatewayError Fields × k.Objects
  unfolding execute get
  apply namespace name body s =
      let (outcome, s') = k.patch namespace name body s in
      (applied namespace name (execute outcome) s', s')

  abbrev pub deleted : Result DeploymentGatewayError (Unit {0}) → Result DeploymentGatewayError Bool
  deleted (ok u) = ok true
  deleted (err e) = if eqb e.status 404 then ok false else err e

  unfoldable pub delete :
      String → String → k.Objects → Result DeploymentGatewayError Bool × k.Objects
  unfolding execute
  delete namespace name s =
      let (outcome, s') = k.delete_object namespace name s in (deleted (execute outcome), s')
