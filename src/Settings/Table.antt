-- ===== src/Settings/Table.antt =====
-- The variables of app/config.py with their defaults and the fields that they fill.
use kernexys.Prelude.{ℕ, ◌<◌, ◌≡◌, String, Bool, true, false, none, some, List, [], ◌∷◌, ℤ, pos}
use kernexys.Settings.{Settings}
use kernexys.Settings.Variables.{Unicode, Environment, int_of_text, strip, is_truth, is_falsehood}

-- The variable is not set and the value is the default, or its text is that of a positive number.
pub data IsInt (u : Unicode) (env : Environment) (name : String) (default v : ℤ) : Type 0 where
  unset : env name ≡ none → v ≡ default → IsInt u env name default v
  set :
      (raw : String) (n : ℕ)
      → env name ≡ some raw
      → int_of_text u raw ≡ some (pos n)
      → 0 < n
      → v ≡ pos n
      → IsInt u env name default v

-- The variable is not set and the value is the default, or its text says the value.
pub data IsFlag (u : Unicode) (env : Environment) (name : String) (default v : Bool) : Type 0 where
  unset : env name ≡ none → v ≡ default → IsFlag u env name default v
  on :
      (raw : String)
      → env name ≡ some raw
      → is_truth (u.lower (strip u raw)) ≡ true
      → v ≡ true
      → IsFlag u env name default v
  off :
      (raw : String)
      → env name ≡ some raw
      → is_falsehood (u.lower (strip u raw)) ≡ true
      → v ≡ false
      → IsFlag u env name default v

abbrev pub ints : List (String × ℕ × (Settings → ℤ))
ints =
    ("KERNEXYS_MAX_REQUEST_BYTES", 1048576, λ s. s.max_request_bytes)
    ∷ ("KERNEXYS_DATABASE_POOL_SIZE", 5, λ s. s.database_pool_size)
    ∷ ("KERNEXYS_DATABASE_MAX_OVERFLOW", 5, λ s. s.database_max_overflow)
    ∷ ("KERNEXYS_DATABASE_COMMAND_TIMEOUT_SECONDS", 10, λ s. s.database_command_timeout_seconds)
    ∷ ("KERNEXYS_READINESS_TIMEOUT_SECONDS", 2, λ s. s.readiness_timeout_seconds)
    ∷ ("KERNEXYS_SERVER_PORT", 8000, λ s. s.server_port)
    ∷ ("KERNEXYS_SERVER_LIMIT_CONCURRENCY", 100, λ s. s.server_limit_concurrency)
    ∷ ("KERNEXYS_SERVER_TIMEOUT_KEEP_ALIVE_SECONDS", 5, λ s. s.server_timeout_keep_alive_seconds)
    ∷ (
      "KERNEXYS_SERVER_TIMEOUT_GRACEFUL_SHUTDOWN_SECONDS",
      20,
      λ s. s.server_timeout_graceful_shutdown_seconds,
    )
    ∷ ("KERNEXYS_KUBERNETES_REQUEST_TIMEOUT_SECONDS", 5, λ s. s.kubernetes_request_timeout_seconds)
    ∷ ("KERNEXYS_ASYNC_QUEUE_CAPACITY", 1000, λ s. s.async_queue_capacity)
    ∷ ("KERNEXYS_ASYNC_JOB_TTL_SECONDS", 3600, λ s. s.async_job_ttl_seconds)
    ∷ ("KERNEXYS_REDIS_SOCKET_TIMEOUT_SECONDS", 5, λ s. s.redis_socket_timeout_seconds)
    ∷ ("KERNEXYS_ASYNC_WORKER_CONCURRENCY", 4, λ s. s.async_worker_concurrency)
    ∷ ("KERNEXYS_ASYNC_INFERENCE_TIMEOUT_SECONDS", 30, λ s. s.async_inference_timeout_seconds)
    ∷ ("KERNEXYS_INFERENCE_TIMEOUT_SECONDS", 10, λ s. s.inference_timeout_seconds)
    ∷ ("KERNEXYS_METRICS_PORT", 8001, λ s. s.metrics_port)
    ∷ []

abbrev pub flags : List (String × Bool × (Settings → Bool))
flags =
    ("KERNEXYS_KUBERNETES_ENABLED", false, λ s. s.kubernetes_enabled)
    ∷ ("KERNEXYS_ASYNC_INFERENCE_ENABLED", false, λ s. s.async_inference_enabled)
    ∷ ("KERNEXYS_METRICS_ENABLED", true, λ s. s.metrics_enabled)
    ∷ ("KERNEXYS_LOGGING_CORRELATION_ID_ENABLED", true, λ s. s.logging_correlation_id_enabled)
    ∷ []

module _ (u : Unicode) (env : Environment) (s : Settings) where
  abbrev pub IntsRead : List (String × ℕ × (Settings → ℤ)) → Type 0
  IntsRead [] = Unit {0}
  IntsRead ((name, default, field) ∷ rest) =
      IsInt u env name (pos default) (field s) × IntsRead rest

  abbrev pub FlagsRead : List (String × Bool × (Settings → Bool)) → Type 0
  FlagsRead [] = Unit {0}
  FlagsRead ((name, default, field) ∷ rest) = IsFlag u env name default (field s) × FlagsRead rest
