-- ===== src/Metrics.antt =====
-- app/metrics.py: what the collector of the control API records. Durations are readings of the
-- monotonic clock, in ticks.
pub mod Tables
pub mod Percentile
pub mod Format
pub mod Bounds
pub mod Order
pub mod Laws
pub mod Exported
pub mod Recorded
mod Tests
use Prim.Native.String.{◌++◌ as append}
use kernexys.Prelude.{
  ℕ, ◌+◌, ◌-◌, String, Bool, true, false, not, ◌&&◌, Option, none, some, List, [], ◌∷◌, ◌++◌, ◌==◌,
  if◌then◌else◌,
}
use Tables.{
  Table, same_text, same_request, same_error, contains, assign, add_to, append_to, get_or_empty,
}

-- One entry of _kubernetes_syncs.
pub record Sync : Type 0 where
  pub duration : ℕ
  pub success : Bool

pub record MetricsCollector : Type 0 where
  -- by method, path and status
  pub request_count : Table (String × String × String) ℕ
  pub request_latency : Table (String × String × String) (List ℕ)
  -- by namespace/deployment
  pub inference_latency : Table String (List ℕ)
  pub queue_depth : Table String ℕ
  -- by namespace/deployment and type
  pub queue_errors : Table (String × String) ℕ
  pub model_deployments_total : ℕ
  pub model_versions_total : ℕ
  pub kubernetes_syncs : Table String (List Sync)
  pub kubernetes_sync_errors : Table String ℕ

abbrev pub new_collector : MetricsCollector
new_collector = record {
  request_count = [];
  request_latency = [];
  inference_latency = [];
  queue_depth = [];
  queue_errors = [];
  model_deployments_total = 0;
  model_versions_total = 0;
  kubernetes_syncs = [];
  kubernetes_sync_errors = [];
}

infixl 10 ◌>>=◌
abbrev pub ◌>>=◌ : {A B : Type 0} → Option A → (A → Option B) → Option B
none >>= f = none
some a >>= f = f a

-- Each method below returns none for a KeyError.

-- the `finally` block of track_request
unfoldable pub record_request :
    String × String × String → ℕ → MetricsCollector → Option MetricsCollector
record_request key duration m = do
  let known = contains same_request key m.request_count
  let counts = if known then m.request_count else assign same_request key 0 m.request_count
  let latencies = if known then m.request_latency else assign same_request key [] m.request_latency
  count ← add_to same_request key 1 counts
  latency ← append_to same_request key duration latencies
  some (record m { request_count = count; request_latency = latency })

-- How the body of the context manager ended: it returned, it raised an Exception, or it raised another
-- BaseException, such as the cancellation of its task.
pub data Ended (E A : Type 0) : Type 0 where
  returned : A → Ended E A
  raised : E → Ended E A
  interrupted : Ended E A

-- "200", the name of the exception's class, or "unknown"
abbrev pub status_of : {E A : Type 0} → (E → String) → Ended E A → String
status_of type_name (Ended.returned a) = "200"
status_of type_name (Ended.raised e) = type_name e
status_of type_name Ended.interrupted = "unknown"

-- The body ran from `start` to `stop` and ended as `result` says, which is passed on.
unfoldable pub track_request :
    {E A : Type 0}
    → (E → String)
    → String
    → String
    → ℕ
    → ℕ
    → Ended E A
    → MetricsCollector
    → Option (Ended E A × MetricsCollector)
unfolding record_request
track_request type_name method path start stop result m = do
  m' ← record_request (method, path, status_of type_name result) (stop - start) m
  some (result, m')

-- f"{namespace}/{deployment_name}"
abbrev pub deployment_key : String → String → String
deployment_key namespace deployment_name = append namespace (append "/" deployment_name)

unfoldable pub track_inference :
    String → String → ℕ → ℕ → MetricsCollector → Option MetricsCollector
track_inference namespace deployment_name start stop m = do
  let key = deployment_key namespace deployment_name
  latency ← append_to same_text key (stop - start) (get_or_empty same_text key m.inference_latency)
  some (record m { inference_latency = latency })

unfoldable pub track_queue_depth : String → String → ℕ → MetricsCollector → MetricsCollector
track_queue_depth namespace deployment_name depth m = record m {
  queue_depth = assign same_text (deployment_key namespace deployment_name) depth m.queue_depth;
}

unfoldable pub track_queue_error :
    String → String → String → MetricsCollector → Option MetricsCollector
track_queue_error namespace deployment_name error_type m = do
  let key : String × String = (deployment_key namespace deployment_name, error_type)
  let errors =
      if contains same_error key m.queue_errors
      then m.queue_errors
      else assign same_error key 0 m.queue_errors
  errors' ← add_to same_error key 1 errors
  some (record m { queue_errors = errors' })

unfoldable pub set_model_deployments_total : ℕ → MetricsCollector → MetricsCollector
set_model_deployments_total count m = record m { model_deployments_total = count }

unfoldable pub set_model_versions_total : ℕ → MetricsCollector → MetricsCollector
set_model_versions_total count m = record m { model_versions_total = count }

unfoldable pub count_sync_error : String → MetricsCollector → Option MetricsCollector
count_sync_error key m = do
  let errors =
      if contains same_text key m.kubernetes_sync_errors
      then m.kubernetes_sync_errors
      else assign same_text key 0 m.kubernetes_sync_errors
  errors' ← add_to same_text key 1 errors
  some (record m { kubernetes_sync_errors = errors' })

abbrev pub sync_entry : ℕ → Bool → Sync
sync_entry duration success = record { duration = duration; success = success }

unfoldable pub track_kubernetes_sync :
    String → ℕ → Bool → MetricsCollector → Option MetricsCollector
unfolding count_sync_error
track_kubernetes_sync deployment_name duration success m = do
  syncs ←
      append_to same_text deployment_name (sync_entry duration success)
        (get_or_empty same_text deployment_name m.kubernetes_syncs)
  let m' = record m { kubernetes_syncs = syncs }
  if success then some m' else count_sync_error deployment_name m'
