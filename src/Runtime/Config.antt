-- ===== src/Runtime/Config.antt =====
-- runtime/runtime_app/config.py: the settings of the model runtime.
use Prim.Native.String.{◌∷◌ as char, [] as blank, ◌++◌ as append, count}
use Prim.Native.Char.{code}
use kernexys.Prelude.{
  ℕ, zero, suc, String, Bool, true, false, not, ◌&&◌, ◌||◌, List, [], ◌∷◌, Result, ok, err, ◌>>=◌,
  ◌==◌, eqb, leb, ltb, if◌then◌else◌, ℤ, pos, negsuc,
}
use kernexys.Settings.Variables.{Unicode, Environment, getenv, positive_int}

pub record Settings : Type 0 where
  pub model_name : String
  pub model_version : String
  pub baked_model_version : String
  pub max_request_bytes : ℤ
  pub server_host : String
  pub server_port : ℤ
  pub server_limit_concurrency : ℤ
  pub server_timeout_keep_alive_seconds : ℤ
  pub server_timeout_graceful_shutdown_seconds : ℤ

-- [a-z0-9]
abbrev is_alnum : ℕ → Bool
is_alnum c = (leb b'a' c && leb c b'z') || (leb b'0' c && leb c b'9')

-- (?:[-a-z0-9]*[a-z0-9])? once the rest of the name was read; `closed` if the last one was [a-z0-9]
abbrev rest_matches : Bool → String → Bool
rest_matches closed blank = closed
rest_matches closed (char c s) =
    let after_alnum : Bool = rest_matches true s in
    let after_dash : Bool = rest_matches false s in
    if is_alnum (code c) then after_alnum else eqb (code c) b'-' && after_dash

-- _MODEL_NAME_PATTERN.fullmatch
unfoldable pub matches_model_name : String → Bool
matches_model_name blank = false
matches_model_name (char c s) = is_alnum (code c) && rest_matches true s

unfoldable pub is_baked_version : String → Bool
is_baked_version version = version == "v1" || version == "v2"

abbrev pub is_positive : ℤ → Bool
is_positive (negsuc n) = false
is_positive (pos zero) = false
is_positive (pos (suc n)) = true

-- for name, value in {...}.items()
abbrev pub all_positive : List (String × ℤ) → Result String (Unit {0})
all_positive [] = ok tt
all_positive ((name, value) ∷ rest) =
    let later : Result String (Unit {0}) = all_positive rest in
    if is_positive value then later else err (append name " must be greater than zero")

abbrev pub exceeds : ℕ → ℤ → Bool
exceeds n (negsuc k) = false
exceeds n (pos k) = ltb n k

unfoldable pub unless : Bool → String → Result String (Unit {0})
unless good message = if good then ok tt else err message

-- the numbers of the settings by name
abbrev pub numbers : Settings → List (String × ℤ)
numbers s =
    ("max_request_bytes", s.max_request_bytes)
    ∷ ("server_port", s.server_port)
    ∷ ("server_limit_concurrency", s.server_limit_concurrency)
    ∷ ("server_timeout_keep_alive_seconds", s.server_timeout_keep_alive_seconds)
    ∷ ("server_timeout_graceful_shutdown_seconds", s.server_timeout_graceful_shutdown_seconds)
    ∷ []

-- __post_init__
unfoldable pub post_init : Settings → Result String Settings
unfolding matches_model_name is_baked_version
post_init s = do
  _ ←
      unless (matches_model_name s.model_name && leb (count s.model_name) 63)
        "KERNEXYS_MODEL_NAME must be a valid lowercase Kubernetes name"
  _ ←
      unless (is_baked_version s.baked_model_version)
        "KERNEXYS_BAKED_MODEL_VERSION must be v1 or v2"
  _ ←
      unless (s.model_version == s.baked_model_version)
        "KERNEXYS_MODEL_VERSION does not match the version baked into this image"
  _ ← all_positive (numbers s)
  _ ← unless (not (exceeds 65535 s.server_port)) "server_port must not exceed 65535"
  ok s

unfoldable pub from_env : Unicode → Environment → Result String Settings
unfolding positive_int
from_env u env = do
  let baked_version = getenv env "KERNEXYS_BAKED_MODEL_VERSION" "v1"
  max_request_bytes ← positive_int u env "KERNEXYS_MAX_REQUEST_BYTES" (pos 16384)
  server_port ← positive_int u env "KERNEXYS_RUNTIME_PORT" (pos 8080)
  server_limit_concurrency ← positive_int u env "KERNEXYS_RUNTIME_LIMIT_CONCURRENCY" (pos 32)
  server_timeout_keep_alive_seconds ←
      positive_int u env "KERNEXYS_RUNTIME_TIMEOUT_KEEP_ALIVE_SECONDS" (pos 5)
  server_timeout_graceful_shutdown_seconds ←
      positive_int u env "KERNEXYS_RUNTIME_TIMEOUT_GRACEFUL_SHUTDOWN_SECONDS" (pos 20)
  post_init (record {
    model_name = getenv env "KERNEXYS_MODEL_NAME" "sentiment";
    model_version = getenv env "KERNEXYS_MODEL_VERSION" baked_version;
    baked_model_version = baked_version;
    max_request_bytes = max_request_bytes;
    server_host = getenv env "KERNEXYS_RUNTIME_HOST" "0.0.0.0";
    server_port = server_port;
    server_limit_concurrency = server_limit_concurrency;
    server_timeout_keep_alive_seconds = server_timeout_keep_alive_seconds;
    server_timeout_graceful_shutdown_seconds = server_timeout_graceful_shutdown_seconds;
  })
