-- ===== src/Metrics/Recorded.antt =====
-- What the collector holds after any sequence of records.
use kernexys.Prelude.{
  ℕ, ◌-◌, ◌≡◌, refl, sym, ap, ◌∙◌, String, Bool, true, false, Option, none, some, List, [], ◌∷◌,
  ◌++◌, if◌then◌else◌, Bool-cases, inl, inr,
}
use kernexys.Metrics.{
  MetricsCollector, Sync, Ended, ◌>>=◌, new_collector, record_request, status_of, deployment_key,
  sync_entry, track_request, track_inference, track_queue_depth, track_queue_error,
  set_model_deployments_total, set_model_versions_total, track_kubernetes_sync, count_sync_error,
}
use kernexys.Metrics.Tables.{Table, same_text, same_request, same_error}
use kernexys.Metrics.Laws.{
  lengths, series, appended, add_to-Found, append_to-Found, same_request_iff, same_error_iff,
  same_text_iff, ensured-lengths, ensured-empty,
}
use mathlib.Core.List.{append-nil, append_assoc}
use kernexys.Metrics.Exported.{to_prometheus_format-Found}
use kernexys.Metrics.Format.{to_prometheus_format}

if_append :
    (b : Bool) (l : List ℕ) (x : ℕ)
    → (if b then l ++ x ∷ [] else l) ≡ l ++ (if b then x ∷ [] else [])
if_append true l x = refl
if_append false l x = sym (append-nil l)

request_advanced :
    (key : String × String × String) (duration : ℕ) (m : MetricsCollector)
    → m.request_count ≡ lengths m.request_latency
    → (m' : MetricsCollector) × (record_request key duration m ≡ some m')
      × (m'.request_count ≡ lengths m'.request_latency)
      × ((k : String × String × String)
          → series same_request k m'.request_latency
            ≡ series same_request k m.request_latency
              ++ (if same_request key k then duration ∷ [] else []))
unfolding record_request
request_advanced key duration m e =
    let more = appended same_request same_request_iff key duration m.request_latency in
    (
      record m { request_count = lengths more.0; request_latency = more.0 },
      rw
          (
            e,
            ensured-lengths same_request same_request_iff key m.request_latency,
            ensured-empty same_request same_request_iff key m.request_latency,
            more.1,
            more.2,
          )
          refl,
      refl,
      λ k.
          more.3 k
          ∙ if_append (same_request key k) (series same_request k m.request_latency) duration,
    )

track_inference-Found :
    (namespace name : String) (start stop : ℕ) (m : MetricsCollector)
    → (t : Table String (List ℕ)) × (track_inference namespace name start stop m
        ≡ some (record m { inference_latency = t }))
unfolding track_inference
track_inference-Found namespace name start stop m =
    let found =
      append_to-Found same_text same_text_iff (deployment_key namespace name) (stop - start)
        m.inference_latency in
    (found.0, rw found.1 refl)

track_queue_error-Found :
    (namespace name error_type : String) (m : MetricsCollector)
    → (t : Table (String × String) ℕ) × (track_queue_error namespace name error_type m
        ≡ some (record m { queue_errors = t }))
unfolding track_queue_error
track_queue_error-Found namespace name error_type m =
    let found =
      add_to-Found same_error same_error_iff (deployment_key namespace name, error_type) 1
        m.queue_errors in
    (found.0, rw found.1 refl)

track_kubernetes_sync-Found :
    (name : String) (duration : ℕ) (success : Bool) (m : MetricsCollector)
    → (a : Table String (List Sync)) × (b : Table String ℕ) × (track_kubernetes_sync name duration
          success m
        ≡ some (record m { kubernetes_syncs = a; kubernetes_sync_errors = b }))
unfolding track_kubernetes_sync count_sync_error
track_kubernetes_sync-Found name duration true m =
    let found =
      append_to-Found same_text same_text_iff name (sync_entry duration true) m.kubernetes_syncs in
    (found.0, m.kubernetes_sync_errors, rw found.1 refl)
track_kubernetes_sync-Found name duration false m =
    let found =
      append_to-Found same_text same_text_iff name (sync_entry duration false) m.kubernetes_syncs in
    let errors = add_to-Found same_text same_text_iff name 1 m.kubernetes_sync_errors in
    (found.0, errors.0, rw (found.1, errors.1) refl)

-- A call of one of the collector's methods.
pub data Event (E A : Type 0) : Type 0 where
  request : String → String → ℕ → ℕ → Ended E A → Event E A
  inference : String → String → ℕ → ℕ → Event E A
  depth : String → String → ℕ → Event E A
  queue_error : String → String → String → Event E A
  deployments_total : ℕ → Event E A
  versions_total : ℕ → Event E A
  sync : String → ℕ → Bool → Event E A

module _ {E A : Type 0} (type_name : E → String) where
  abbrev forget : Option (Ended E A × MetricsCollector) → Option MetricsCollector
  forget none = none
  forget (some (result, m)) = some m

  unfoldable pub apply : Event E A → MetricsCollector → Option MetricsCollector
  unfolding track_request track_inference track_queue_depth track_queue_error
      set_model_deployments_total set_model_versions_total track_kubernetes_sync
  apply (Event.request method path start stop ended) m =
      forget (track_request type_name method path start stop ended m)
  apply (Event.inference namespace name start stop) m = track_inference namespace name start stop m
  apply (Event.depth namespace name n) m = some (track_queue_depth namespace name n m)
  apply (Event.queue_error namespace name error_type) m =
      track_queue_error namespace name error_type m
  apply (Event.deployments_total n) m = some (set_model_deployments_total n m)
  apply (Event.versions_total n) m = some (set_model_versions_total n m)
  apply (Event.sync name duration success) m = track_kubernetes_sync name duration success m

  unfoldable pub run : List (Event E A) → MetricsCollector → Option MetricsCollector
  unfolding apply
  run [] m = some m
  run (v ∷ events) m = do m' ← apply v m; run events m'

  -- the durations of the requests that were recorded under a method, a path and a status
  abbrev pub recorded : String × String × String → List (Event E A) → List ℕ
  recorded k [] = []
  recorded k (Event.request method path start stop ended ∷ events) =
      let rest : List ℕ = recorded k events in
      if same_request (method, path, status_of type_name ended) k
      then (stop - start) ∷ rest
      else rest
  recorded k (v ∷ events) = recorded k events

  -- A step ends without a KeyError, keeps the counts, and adds what the event says.
  Advanced : Event E A → MetricsCollector → MetricsCollector → Type 0
  Advanced v m m' =
      (apply v m ≡ some m')
      × (m'.request_count ≡ lengths m'.request_latency)
      × ((k : String × String × String)
          → series same_request k m'.request_latency
            ≡ series same_request k m.request_latency ++ recorded k (v ∷ []))

  step :
      (v : Event E A) (m : MetricsCollector)
      → m.request_count ≡ lengths m.request_latency
      → (m' : MetricsCollector) × Advanced v m m'
  unfolding apply Advanced track_request track_inference track_queue_error track_kubernetes_sync
      track_queue_depth set_model_deployments_total set_model_versions_total count_sync_error
  step (Event.request method path start stop ended) m e =
      let next = request_advanced (method, path, status_of type_name ended) (stop - start) m e in
      (next.0, (rw next.1 refl, next.2, next.3))
  step (Event.inference namespace name start stop) m e =
      let found = track_inference-Found namespace name start stop m in
      (record m { inference_latency = found.0 }, (found.1, e, λ k. sym (append-nil _)))
  step (Event.depth namespace name n) m e = (_, (refl, e, λ k. sym (append-nil _)))
  step (Event.queue_error namespace name error_type) m e =
      let found = track_queue_error-Found namespace name error_type m in
      (record m { queue_errors = found.0 }, (found.1, e, λ k. sym (append-nil _)))
  step (Event.deployments_total n) m e = (_, (refl, e, λ k. sym (append-nil _)))
  step (Event.versions_total n) m e = (_, (refl, e, λ k. sym (append-nil _)))
  step (Event.sync name duration success) m e =
      let found = track_kubernetes_sync-Found name duration success m in
      (
        record m { kubernetes_syncs = found.0; kubernetes_sync_errors = found.1 },
        (found.2, e, λ k. sym (append-nil _)),
      )

  recorded-append :
      (k : String × String × String) (v : Event E A) (events : List (Event E A))
      → recorded k (v ∷ events) ≡ recorded k (v ∷ []) ++ recorded k events
  recorded-append k (Event.request method path start stop ended) events =
      elim (Bool-cases (same_request (method, path, status_of type_name ended) k)) [
        | inl eq ↦ rw eq refl
        | inr ne ↦ rw ne refl
      ]
  recorded-append k (Event.inference namespace name start stop) events = refl
  recorded-append k (Event.depth namespace name n) events = refl
  recorded-append k (Event.queue_error namespace name error_type) events = refl
  recorded-append k (Event.deployments_total n) events = refl
  recorded-append k (Event.versions_total n) events = refl
  recorded-append k (Event.sync name duration success) events = refl

  steps :
      (events : List (Event E A)) (m : MetricsCollector)
      → m.request_count ≡ lengths m.request_latency
      → (m' : MetricsCollector) × (run events m ≡ some m')
        × (m'.request_count ≡ lengths m'.request_latency)
        × ((k : String × String × String)
            → series same_request k m'.request_latency
              ≡ series same_request k m.request_latency ++ recorded k events)
  unfolding run Advanced
  steps [] m e = (m, refl, e, λ k. sym (append-nil _))
  steps (v ∷ events) m e =
      let first = step v m e in
      let rest = steps events first.0 first.1.1 in
      (
        rest.0,
        rw first.1.0 rest.1,
        rest.2,
        λ k.
            rest.3 k
            ∙ ap (λ (l : List ℕ). l ++ recorded k events) (first.1.2 k)
            ∙ append_assoc (series same_request k m.request_latency) (recorded k (v ∷ []))
                (recorded k events)
            ∙ ap (λ (l : List ℕ). series same_request k m.request_latency ++ l)
                (sym (recorded-append k v events)),
      )

  -- After any calls of the collector's methods on a new collector, none of them raises a
  -- KeyError, the count of each request key is the number of its durations, which are those
  -- recorded under that method, path and status in order, and the export raises no IndexError.
  pub metrics_recorded :
      (repr : ℕ → String) (events : List (Event E A))
      → (m : MetricsCollector) × (run events new_collector ≡ some m)
        × (m.request_count ≡ lengths m.request_latency)
        × ((k : String × String × String)
            → series same_request k m.request_latency ≡ recorded k events)
        × ((text : String) × (to_prometheus_format repr m ≡ some text))
  metrics_recorded repr events =
      let all = steps events new_collector refl in
      (all.0, all.1, all.2, all.3, to_prometheus_format-Found repr all.0)
