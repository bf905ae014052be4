-- ===== src/Readiness/Tests.antt =====
-- The dependency that is blamed is the first one that fails.
use kernexys.Prelude.{true, false, some, none, [], ◌∷◌, ◌≡◌, refl, ok, err}
use kernexys.Json.{str, obj, field, end}
use kernexys.Readiness.{Dependencies, ready, not_ready}

abbrev failing : Dependencies
failing = record {
  kubernetes_enabled = true;
  async_inference_enabled = true;
  database = ok tt;
  gateway = none;
  queue = some (err "AsyncQueueError");
}

blames_kubernetes : ready failing ≡ (
  err (not_ready (record { dependency = "kubernetes"; error_type = "RuntimeError" })),
  record { dependency = "kubernetes"; error_type = "RuntimeError" } ∷ [],
)
unfolding ready
blames_kubernetes = refl

blames_redis : ready (record failing { kubernetes_enabled = false }) ≡ (
  err (not_ready (record { dependency = "redis"; error_type = "AsyncQueueError" })),
  record { dependency = "redis"; error_type = "AsyncQueueError" } ∷ [],
)
unfolding ready
blames_redis = refl

only_database :
    ready (record failing { kubernetes_enabled = false; async_inference_enabled = false })
    ≡ (ok (obj (field "status" (str "ready") end)), [])
unfolding ready
only_database = refl
