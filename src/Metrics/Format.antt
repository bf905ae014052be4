-- ===== src/Metrics/Format.antt =====
-- to_prometheus_format of app/metrics.py. `repr` is Python's text of a duration; the result is none for
-- an IndexError.
use Prim.Native.String.{slice, ◌++◌ as append}
use kernexys.Prelude.{
  ℕ, zero, suc, ◌+◌, ◌/◌, ◌%◌, String, Option, some, List, [], ◌∷◌, ◌++◌, ltb, if◌then◌else◌,
}
use kernexys.Metrics.{MetricsCollector, Sync, ◌>>=◌}
use kernexys.Metrics.Tables.{Table}
use kernexys.Metrics.Percentile.{Percentiles, percentiles}

-- str(n) before the text `after`; n + 1 steps are more than it has digits
abbrev str_before : ℕ → ℕ → String → String
str_before zero n after = after
str_before (suc fuel) n after =
    let shown : String = append (slice "0123456789" (n % 10) (n % 10 + 1)) after in
    let longer : String = str_before fuel (n / 10) shown in if ltb n 10 then shown else longer

unfoldable pub str : ℕ → String
str n = str_before (n + 1) n ""

abbrev texts : List String → String
texts [] = ""
texts (s ∷ ss) = append s (texts ss)

-- key="value"
abbrev label : String → String → String
label key value = texts (key ∷ "=\"" ∷ value ∷ "\"" ∷ [])

-- name{labels} value
abbrev sample : String → String → String → String
sample name labels value = texts (name ∷ "{" ∷ labels ∷ "} " ∷ value ∷ [])

abbrev pub request_labels : String × String × String → String
request_labels (method, path, status) =
    texts (label "method" method ∷ "," ∷ label "path" path ∷ "," ∷ label "status" status ∷ [])

abbrev pub deployment_label : String → String
deployment_label deployment = label "deployment" deployment

abbrev pub error_labels : String × String → String
error_labels (deployment, error_type) =
    texts (label "deployment" deployment ∷ "," ∷ label "type" error_type ∷ [])

abbrev help : String → String → String → List String
help name about kind =
    texts ("# HELP " ∷ name ∷ " " ∷ about ∷ []) ∷ texts ("# TYPE " ∷ name ∷ " " ∷ kind ∷ []) ∷ []

-- for key, count in d.items(): lines.append(...)
unfoldable pub counter_lines : {K : Type 0} → String → (K → String) → Table K ℕ → List String
counter_lines name labels [] = []
counter_lines name labels ((k, n) ∷ d) =
    sample name (labels k) (str n) ∷ counter_lines name labels d

abbrev three_lines : (ℕ → String) → String → String → Percentiles → List String
three_lines repr name labels p =
    sample (append name "_p50") labels (repr p.p50)
    ∷ sample (append name "_p95") labels (repr p.p95)
    ∷ sample (append name "_p99") labels (repr p.p99)
    ∷ []

unfoldable pub percentile_lines : (ℕ → String) → String → String → List ℕ → Option (List String)
percentile_lines repr name labels [] = some []
percentile_lines repr name labels (x ∷ xs) = do
  p ← percentiles (x ∷ xs)
  some (three_lines repr name labels p)

-- [s["duration"] for s in syncs if s["success"]]
unfoldable pub successful : List Sync → List ℕ
successful [] = []
successful (s ∷ syncs) =
    let rest : List ℕ = successful syncs in if s.success then s.duration ∷ rest else rest

-- for key, value in d.items(): the percentiles of its durations
unfoldable pub histogram_lines :
    {K V : Type 0}
    → (ℕ → String)
    → String
    → (K → String)
    → (V → List ℕ)
    → Table K V
    → Option (List String)
unfolding percentile_lines
histogram_lines repr name labels durations [] = some []
histogram_lines repr name labels durations ((k, v) ∷ d) = do
  first ← percentile_lines repr name (labels k) (durations v)
  rest ← histogram_lines repr name labels durations d
  some (first ++ rest)

abbrev join : String → List String → String
join separator [] = ""
join separator (s ∷ []) = s
join separator (s ∷ t ∷ ss) = append s (append separator (join separator (t ∷ ss)))

abbrev total : String → ℕ → String
total name n = texts (name ∷ " " ∷ str n ∷ [])

unfoldable pub to_prometheus_format : (ℕ → String) → MetricsCollector → Option String
unfolding str counter_lines histogram_lines successful
to_prometheus_format repr m = do
  requests ←
      histogram_lines repr "kernexys_http_request_duration_seconds" request_labels
        (λ (l : List ℕ). l) m.request_latency
  inferences ←
      histogram_lines repr "kernexys_inference_latency_seconds" deployment_label (λ (l : List ℕ). l)
        m.inference_latency
  syncs ←
      histogram_lines repr "kernexys_kubernetes_sync_duration_seconds" deployment_label successful
        m.kubernetes_syncs
  some (
      append
        (join "\n" (
          help "kernexys_http_requests_total" "Total HTTP requests processed" "counter"
          ++ counter_lines "kernexys_http_requests_total" request_labels m.request_count
          ++ help "kernexys_http_request_duration_seconds" "HTTP request latency" "histogram"
          ++ requests
          ++ help "kernexys_inference_latency_seconds" "Inference request latency" "histogram"
          ++ inferences
          ++ help "kernexys_async_queue_depth" "Number of pending inference jobs" "gauge"
          ++ counter_lines "kernexys_async_queue_depth" deployment_label m.queue_depth
          ++ help "kernexys_async_queue_errors_total" "Async queue error count" "counter"
          ++ counter_lines "kernexys_async_queue_errors_total" error_labels m.queue_errors
          ++ help "kernexys_model_deployments_total" "Total model deployments" "gauge"
          ++ (total "kernexys_model_deployments_total" m.model_deployments_total ∷ [])
          ++ help "kernexys_model_versions_total" "Total model versions in registry" "gauge"
          ++ (total "kernexys_model_versions_total" m.model_versions_total ∷ [])
          ++ help "kernexys_kubernetes_sync_duration_seconds" "Controller sync latency" "histogram"
          ++ syncs
          ++ help "kernexys_kubernetes_sync_errors_total" "Controller sync error count" "counter"
          ++ counter_lines "kernexys_kubernetes_sync_errors_total" deployment_label
              m.kubernetes_sync_errors))
        "\n")
