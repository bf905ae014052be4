-- ===== src/Readiness.antt =====
-- ready of app/routes.py: which dependency it blames. Each check ends well or with an exception, by the
-- name of its class; a timeout is the exception of the check that it interrupts.
mod Tests
use kernexys.Prelude.{
  ℕ, String, Bool, true, false, Option, none, some, List, [], ◌∷◌, Result, ok, err, ◌>>=◌,
  if◌then◌else◌, ◌≡◌, refl, ◌≢◌,
}
use kernexys.Json.{Json, str, obj, field, end}
use kernexys.Errors.{ApiError}

abbrev pub Checked : Type 0
Checked = Result String (Unit {0})

-- the settings, and how the checks end; a gateway or queue that the application has not got is none
pub record Dependencies : Type 0 where
  pub kubernetes_enabled : Bool
  pub async_inference_enabled : Bool
  pub database : Checked
  pub gateway : Option Checked
  pub queue : Option Checked

-- the `extra` of the warning
pub record Unavailable : Type 0 where
  pub dependency : String
  pub error_type : String

abbrev blamed : String → Checked → Result Unavailable (Unit {0})
blamed dependency (ok u) = ok u
blamed dependency (err name) = err (record { dependency = dependency; error_type = name })

-- RuntimeError for one that is not initialized
abbrev initialized : Option Checked → Checked
initialized none = err "RuntimeError"
initialized (some checked) = checked

abbrev enabled : Bool → Result Unavailable (Unit {0}) → Result Unavailable (Unit {0})
enabled false checked = ok tt
enabled true checked = checked

-- the body of the `try` block
unfoldable pub check_dependencies : Dependencies → Result Unavailable (Unit {0})
check_dependencies d = do
  _ ← blamed "database" d.database
  _ ← enabled d.kubernetes_enabled (blamed "kubernetes" (initialized d.gateway))
  enabled d.async_inference_enabled (blamed "redis" (initialized d.queue))

abbrev pub not_ready : Unavailable → ApiError
not_ready u = record {
  status_code = 503;
  code = "not_ready";
  message = "A required control-plane dependency is unavailable.";
  details = some (obj (field "dependency" (str u.dependency) end));
}

abbrev pub replied : Result Unavailable (Unit {0}) → Result ApiError Json × List Unavailable
replied (ok u) = (ok (obj (field "status" (str "ready") end)), [])
replied (err u) = (err (not_ready u), u ∷ [])

-- with the warnings that are logged
unfoldable pub ready : Dependencies → Result ApiError Json × List Unavailable
unfolding check_dependencies
ready d = replied (check_dependencies d)
