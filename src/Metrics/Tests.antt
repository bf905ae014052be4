-- ===== src/Metrics/Tests.antt =====
-- The theorems at concrete records, and runs of the collector.
use kernexys.Prelude.{ℕ, ◌≡◌, ◌≤◌, refl, String, false, some, List, [], ◌∷◌, length, arith, ◌/◌}
use kernexys.Metrics.{MetricsCollector, Ended, new_collector}
use kernexys.Metrics.Tables.{same_request}
use kernexys.Metrics.Laws.{lengths, series}
use kernexys.Metrics.Percentile.{
  Percentiles, percentiles, scaled, double_95, double_99, sorted, get_elem?,
}
use kernexys.Metrics.Order.{percentiles_ordered}
use kernexys.Metrics.Format.{to_prometheus_format, str}
use kernexys.Metrics.Recorded.{Event, run, recorded, metrics_recorded}

abbrev three : List ℕ
three = 40 ∷ 10 ∷ 30 ∷ []

percentiles_of_three : percentiles three ≡ some (record { p50 = 30; p95 = 40; p99 = 40 })
unfolding percentiles
percentiles_of_three = refl

-- 0.95 and 0.99 are a little below and a little above their decimals.
scaled_by_rounding : (scaled double_95 20 ≡ 19) × (scaled double_99 100 ≡ 99)
unfolding scaled
scaled_by_rounding = (refl, refl)

str_of_numbers : (str 0 ≡ "0") × (str 2048 ≡ "2048")
unfolding str
str_of_numbers = (refl, refl)

percentiles_ordered_example :
    (p : Percentiles) × (percentiles three ≡ some p)
    × (p.p50 ≤ p.p95)
    × (p.p95 ≤ p.p99)
    × (get_elem? (sorted three) (length three / 2) ≡ some p.p50)
percentiles_ordered_example = percentiles_ordered three (omega arith)

abbrev type_name : String → String
type_name e = e

abbrev records : List (Event String ℕ)
records =
    Event.request "GET" "/v1/models" 5 9 (Ended.returned 1)
    ∷ Event.sync "web" 3 false
    ∷ Event.request "GET" "/v1/models" 10 12 (Ended.raised "ApiError")
    ∷ Event.request "GET" "/v1/models" 20 27 (Ended.returned 2)
    ∷ []

two_of_three : recorded type_name ("GET", "/v1/models", "200") records ≡ 4 ∷ 7 ∷ []
two_of_three = refl

metrics_recorded_example :
    (m : MetricsCollector) × (run type_name records new_collector ≡ some m)
    × (m.request_count ≡ lengths m.request_latency)
    × ((k : String × String × String)
        → series same_request k m.request_latency ≡ recorded type_name k records)
    × ((text : String) × (to_prometheus_format str m ≡ some text))
metrics_recorded_example = metrics_recorded type_name str records
