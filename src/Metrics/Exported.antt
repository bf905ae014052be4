-- ===== src/Metrics/Exported.antt =====
-- The export of app/metrics.py never raises an IndexError.
use kernexys.Prelude.{ℕ, refl, String, Option, List, [], ◌∷◌, arith}
use kernexys.Metrics.{MetricsCollector, ◌>>=◌}
use kernexys.Metrics.Tables.{Table}
use kernexys.Metrics.Laws.{Found}
use kernexys.Metrics.Percentile.{percentiles}
use kernexys.Metrics.Order.{percentiles_ordered}
use kernexys.Metrics.Format.{
  to_prometheus_format, histogram_lines, percentile_lines, request_labels, deployment_label,
  successful,
}

bind-Found :
    {A B : Type 0} (o : Option A) (f : A → Option B)
    → Found o
    → ((a : A) → Found (f a))
    → Found (o >>= f)
bind-Found o f (a, e) g = let r = g a in (r.0, rw e r.1)

percentile_lines-Found :
    (repr : ℕ → String) (name labels : String) (durations : List ℕ)
    → Found (percentile_lines repr name labels durations)
unfolding percentile_lines
percentile_lines-Found repr name labels [] = ([], refl)
percentile_lines-Found repr name labels (x ∷ xs) =
    let found = percentiles_ordered (x ∷ xs) (omega arith) in
    bind-Found (percentiles (x ∷ xs)) _ (found.0, found.1) (λ p. (_, refl))

histogram_lines-Found :
    {K V : Type 0} (repr : ℕ → String) (name : String) (labels : K → String)
    (durations : V → List ℕ) (d : Table K V)
    → Found (histogram_lines repr name labels durations d)
unfolding histogram_lines
histogram_lines-Found repr name labels durations [] = ([], refl)
histogram_lines-Found repr name labels durations ((k, v) ∷ d) =
    bind-Found (percentile_lines repr name (labels k) (durations v)) _
      (percentile_lines-Found repr name (labels k) (durations v))
      (λ first.
        bind-Found (histogram_lines repr name labels durations d) _
          (histogram_lines-Found repr name labels durations d) (λ rest. (_, refl)))

-- The text exists: no index is out of range.
pub to_prometheus_format-Found :
    (repr : ℕ → String) (m : MetricsCollector) → Found (to_prometheus_format repr m)
unfolding to_prometheus_format
to_prometheus_format-Found repr m =
    bind-Found _ _
      (histogram_lines-Found repr "kernexys_http_request_duration_seconds" request_labels
        (λ (l : List ℕ). l) m.request_latency)
      (λ requests.
        bind-Found _ _
          (histogram_lines-Found repr "kernexys_inference_latency_seconds" deployment_label
            (λ (l : List ℕ). l) m.inference_latency)
          (λ inferences.
            bind-Found _ _
              (histogram_lines-Found repr "kernexys_kubernetes_sync_duration_seconds"
                deployment_label successful m.kubernetes_syncs)
              (λ syncs. (_, refl))))
