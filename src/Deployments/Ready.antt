-- ===== src/Deployments/Ready.antt =====
-- _ready_endpoint: which observed objects accept inference requests.
use kernexys.Prelude.{
  String, Bool, true, false, ◌&&◌, Option, none, some, ◌==◌, if◌then◌else◌, Result, ok, err,
}
use kernexys.Json.{Json, str, obj, arr, Items, nil, cons, Fields, end, member}
use kernexys.Errors.{ApiError}

-- `uncaught` is an AttributeError or a TypeError, which the route does not catch.
pub data Raised : Type 0 where
  api : ApiError → Raised
  uncaught : Raised

abbrev pub is_text : String → Option Json → Bool
is_text s (some (str t)) = t == s
is_text s other = false

-- condition.get("type") == "Available" and condition.get("status") == "True"
abbrev pub is_available : Fields → Bool
is_available condition =
    is_text "Available" (member "type" condition) && is_text "True" (member "status" condition)

-- any(...) over a list
unfoldable pub any_available : Items → Result Raised Bool
any_available nil = ok false
any_available (cons (obj condition) rest) =
    let later : Result Raised Bool = any_available rest in
    if is_available condition then ok true else later
any_available (cons other rest) = err uncaught

-- iteration over status.get("conditions", [])
abbrev pub over : Option Json → Result Raised Bool
over none = ok false
over (some (arr items)) = any_available items
over (some (obj end)) = ok false
over (some (str s)) = if s == "" then ok false else err uncaught
over (some other) = err uncaught

unfoldable pub not_ready : ApiError
not_ready = record {
  status_code = 409;
  code = "deployment_not_ready";
  message = "The model deployment is not ready.";
  details = none;
}

-- isinstance(endpoint, str) and endpoint
abbrev pub endpoint_of : Option Json → Result Raised String
endpoint_of (some (str s)) = if s == "" then err (api not_ready) else ok s
endpoint_of other = err (api not_ready)

abbrev pub ready_if : Result Raised Bool → Option Json → Result Raised String
ready_if (err e) endpoint = err e
ready_if (ok true) endpoint = endpoint_of endpoint
ready_if (ok false) endpoint = err (api not_ready)

abbrev pub ready_status : Option Json → Result Raised String
ready_status none = ready_if (ok false) none
ready_status (some (obj status)) =
    ready_if (over (member "conditions" status)) (member "endpoint" status)
ready_status (some other) = err uncaught

unfoldable pub ready_endpoint : Fields → Result Raised String
unfolding any_available
ready_endpoint deployment = ready_status (member "status" deployment)
