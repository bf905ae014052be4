-- ===== src/Http/Inference.antt =====
-- runtime/runtime_app: the metrics that the request middleware keeps.
use kernexys.Prelude.{
  ℕ, ◌+◌, ◌≡◌, String, Bool, false, some, List, ltb, if◌then◌else◌, Result, ok, err, ◌==◌,
  Bool-cases, inl, inr,
}
use kernexys.Http.RequestId.{Response, Request, chosen_id}

-- The counter by outcome, and how often the duration histogram was fed.
pub record RuntimeMetrics : Type 0 where
  pub success : ℕ
  pub error : ℕ
  pub observed : ℕ

-- the process: the request id of the context, and the metrics
pub record Process : Type 0 where
  pub request_id : List ℕ
  pub metrics : RuntimeMetrics

unfoldable pub observe_inference : String → RuntimeMetrics → RuntimeMetrics
observe_inference outcome m =
    if outcome == "success"
    then record m { success = m.success + 1; observed = m.observed + 1 }
    else record m { error = m.error + 1; observed = m.observed + 1 }

-- the `finally` block
unfoldable pub finish_request : Request → ℕ → List ℕ → Process → Process
unfolding observe_inference
finish_request request status_code token p = record {
  request_id = token;
  metrics =
      if request.path == "/v1/infer"
      then observe_inference (if ltb status_code 400 then "success" else "error") p.metrics
      else p.metrics;
}

abbrev pub close :
    {E : Type 0}
    → List ℕ
    → Request
    → List ℕ
    → Result E Response
    → Process
    → Result E Response × Process
close id request token (ok response) p = (
  ok (record response { request_id = some id }),
  finish_request request response.status_code token p,
)
close id request token (err x) p = (err x, finish_request request 500 token p)

-- dispatch of runtime/runtime_app/middleware.py
unfoldable pub dispatch :
    {E : Type 0}
    → List ℕ
    → Request
    → (Process → Result E Response × RuntimeMetrics)
    → Process
    → Result E Response × Process
unfolding chosen_id finish_request
dispatch fresh request call_next p =
    let id : List ℕ = chosen_id fresh request.supplied in
    let (result, metrics) = call_next (record p { request_id = id }) in
    close id request p.request_id result (record { request_id = id; metrics = metrics })

-- a request that ends below 400
abbrev pub succeeds : {E : Type 0} → Result E Response → Bool
succeeds (ok r) = ltb r.status_code 400
succeeds (err x) = false

module _ {E : Type 0} (fresh : List ℕ) (request : Request)
    (call_next : Process → Result E Response × RuntimeMetrics) (p : Process) where
  -- In the runtime, whether the handler returns or raises, the request id of the context is
  -- restored, and exactly for /v1/infer one outcome is counted and one duration observed:
  -- success for a response below 400, error otherwise.
  pub dispatch_counts :
      (result : Result E Response) (metrics : RuntimeMetrics)
      → call_next (record p { request_id = chosen_id fresh request.supplied }) ≡ (result, metrics)
      → let p' : Process = (dispatch fresh request call_next p).1 in
        (p'.request_id ≡ p.request_id)
        × (p'.metrics ≡ (
            if request.path == "/v1/infer"
            then (if succeeds result
                then record metrics {
                  success = metrics.success + 1;
                  observed = metrics.observed + 1;
                }
                else record metrics { error = metrics.error + 1; observed = metrics.observed + 1 })
            else metrics))
  unfolding dispatch
  dispatch_counts (ok r) metrics run = (
    rw run,
    elim (Bool-cases (ltb r.status_code 400)) [ inl h ↦ rw (run, h) | inr h ↦ rw (run, h) ],
  )
  dispatch_counts (err x) metrics run = (rw run, rw run)
