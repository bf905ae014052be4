-- ===== src/Runtime/Ready.antt =====
-- Settings that the runtime accepts name a model that it can load.
use kernexys.Prelude.{
  ℕ, zero, suc, ◌<◌, ◌≤◌, List, [], ◌∷◌, ℤ, negsuc, not, ◌≡◌, refl, String, Bool, true, false, ◌&&◌,
  some, ok, ◌==◌, eq_iff, arith, Bool-cases, inl, inr, pos,
}
use kernexys.Settings.Variables.{Unicode, Environment, positive_int}
use kernexys.Runtime.Config.{
  Settings, from_env, post_init, is_baked_version, matches_model_name, unless, all_positive,
  is_positive, exceeds, numbers,
}
use kernexys.Runtime.Classifier.{SentimentClassifier, new_classifier}
use kernexys.Runtime.App.{State, Reply, created, startup, shutdown, readiness}
use kernexys.Settings.Valid.{Returns, bind-Returns, ok-Returns, positive_int-IsInt}
use kernexys.Settings.Table.{IsInt}

abbrev pub not_ready : Reply ⊥
not_ready = Reply.http_exception 503 "model runtime is not ready"

-- a version that was baked into an image of the repository
Known : String → Type 0
Known version = (c : SentimentClassifier) × (new_classifier version ≡ ok c)

Known-of-baked : (version : String) → is_baked_version version ≡ true → Known version
unfolding Known is_baked_version new_classifier
Known-of-baked version h = elim (Bool-cases (version == "v1")) [
  | inl one ↦ rw ((eq_iff version "v1").0 one) (_, refl)
  | inr other ↦ rw ((eq_iff version "v2").0 (ground arith)) (_, refl)
]

abbrev pub IsPort : ℤ → Type 0
IsPort port = (n : ℕ) × (port ≡ pos n) × (0 < n) × (n ≤ 65535)

IsLoadable : Settings → Type 0
IsLoadable s =
    (matches_model_name s.model_name ≡ true)
    × (s.model_version ≡ s.baked_model_version)
    × Known s.model_version
    × IsPort s.server_port

unless-Returns : (good : Bool) (message : String) → Returns (unless good message) (λ u. good ≡ true)
unfolding unless
unless-Returns true message = λ u h. refl
unless-Returns false message = λ u h. absurd (cc)

abbrev AllPositive : List (String × ℤ) → Type 0
AllPositive [] = Unit {0}
AllPositive ((name, value) ∷ rest) = (is_positive value ≡ true) × AllPositive rest

all_positive-Returns : (l : List (String × ℤ)) → Returns (all_positive l) (λ u. AllPositive l)
all_positive-Returns [] = λ u h. tt
all_positive-Returns ((name, value) ∷ rest) = λ u h. elim (Bool-cases (is_positive value)) [
  | inl good ↦ (good, all_positive-Returns rest u (ground arith))
  | inr bad ↦ absurd (ground arith)
]

port_lem : (port : ℤ) → is_positive port ≡ true → not (exceeds 65535 port) ≡ true → IsPort port
port_lem (pos zero) p q = absurd (cc)
port_lem (pos (suc n)) p q = (suc n, refl, omega arith, ground arith)
port_lem (negsuc n) p q = absurd (cc)

and_left : (a b : Bool) → (a && b) ≡ true → a ≡ true
and_left a b h = ground arith

post_init-IsLoadable : (s : Settings) → Returns (post_init s) IsLoadable
unfolding post_init IsLoadable Known
post_init-IsLoadable s = bind-Returns _ _ (unless-Returns _ _) (λ a named.
    bind-Returns _ _ (unless-Returns _ _) (λ b baked.
      bind-Returns _ _ (unless-Returns _ _) (λ c equal.
        bind-Returns _ _ (all_positive-Returns (numbers s)) (λ d positive.
          bind-Returns _ _ (unless-Returns _ _) (λ g short.
            let same : s.model_version ≡ s.baked_model_version = (eq_iff _ _).0 equal in
            ok-Returns IsLoadable s (
              and_left _ _ named,
              same,
              rw same (Known-of-baked s.baked_model_version baked),
              port_lem s.server_port positive.1.0 short,
            ))))))

from_env-IsLoadable : (u : Unicode) (env : Environment) → Returns (from_env u env) IsLoadable
unfolding from_env
from_env-IsLoadable u env = bind-Returns _ _ (read "KERNEXYS_MAX_REQUEST_BYTES" (pos 16384)) (λ a p.
    bind-Returns _ _ (read "KERNEXYS_RUNTIME_PORT" (pos 8080)) (λ b q.
      bind-Returns _ _ (read "KERNEXYS_RUNTIME_LIMIT_CONCURRENCY" (pos 32)) (λ c r.
        bind-Returns _ _ (read "KERNEXYS_RUNTIME_TIMEOUT_KEEP_ALIVE_SECONDS" (pos 5)) (λ d t.
          bind-Returns _ _ (read "KERNEXYS_RUNTIME_TIMEOUT_GRACEFUL_SHUTDOWN_SECONDS" (pos 20))
            (λ e v. post_init-IsLoadable _)))))
  where
    read :
        (name : String) (default : ℤ)
        → Returns (positive_int u env name default) (λ v. IsInt u env name default v)
    read name default = positive_int-IsInt u env name default

-- When the runtime's from_env returns settings, the model named there can be loaded: the
-- application starts, is not ready before the start, answers readiness with the model and
-- version after it and is not ready after the shutdown; the model name matches the pattern, the
-- version is the baked one, and the port is between 1 and 65535.
pub runtime_ready :
    (u : Unicode) (env : Environment) (s : Settings)
    → from_env u env ≡ ok s
    → (state : State) × (startup s created ≡ ok state)
      × (readiness s created ≡ not_ready)
      × (readiness s state ≡ Reply.ready s.model_name s.model_version)
      × (readiness s (shutdown state) ≡ not_ready)
      × (matches_model_name s.model_name ≡ true)
      × (s.model_version ≡ s.baked_model_version)
      × IsPort s.server_port
unfolding IsLoadable Known startup readiness shutdown
runtime_ready u env s h =
    let (named, same, (c, loaded), port) = from_env-IsLoadable u env s h in
    (
      record { ready = true; classifier = some c },
      rw loaded refl,
      refl,
      refl,
      refl,
      named,
      same,
      port,
    )
