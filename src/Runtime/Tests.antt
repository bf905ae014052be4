-- ===== src/Runtime/Tests.antt =====
-- The theorems at concrete settings and texts.
use Prim.Native.String.{◌∷◌ as char}
use kernexys.Prelude.{
  ℕ, zero, suc, ◌+◌, ◌*◌, ◌≤◌, ◌≡◌, refl, ap, String, true, none, some, List, [], ◌∷◌, ok, err,
  ◌==◌, if◌then◌else◌, leb, eqb, length, arith, pos,
}
use kernexys.Prelude.Dict.{lookup}
use kernexys.Json.{Json, str, obj, field, end}
use kernexys.Settings.Variables.{Unicode, Environment}
use kernexys.Runtime.Config.{Settings, from_env, post_init, unless, matches_model_name}
use kernexys.Runtime.Classifier.{Floats, v2_weights, find_tokens}
use kernexys.Runtime.App.{State, Reply, created, startup, shutdown, readiness, infer, infer_request}
use kernexys.Runtime.Ready.{runtime_ready, not_ready, IsPort}
use kernexys.Runtime.Overflow.{All, Rounds, is_heavy, infer-overflow}

abbrev unicode : Unicode
unicode = record { is_space = λ c. eqb c 32; decimal = λ c. none; lower = λ s. s; upper = λ s. s }

abbrev settings : Settings
settings = record {
  model_name = "senti-2";
  model_version = "v2";
  baked_model_version = "v2";
  max_request_bytes = pos 16384;
  server_host = "0.0.0.0";
  server_port = pos 9090;
  server_limit_concurrency = pos 32;
  server_timeout_keep_alive_seconds = pos 5;
  server_timeout_graceful_shutdown_seconds = pos 20;
}

abbrev env : Environment
env = λ name. lookup name (
    ("KERNEXYS_MODEL_NAME", "senti-2")
    ∷ ("KERNEXYS_BAKED_MODEL_VERSION", "v2")
    ∷ ("KERNEXYS_RUNTIME_PORT", "9090")
    ∷ [])

accepted : from_env unicode env ≡ ok settings
unfolding from_env post_init unless
accepted = refl

refused_name :
    from_env unicode (λ name. if name == "KERNEXYS_MODEL_NAME" then some "senti-" else none)
    ≡ err "KERNEXYS_MODEL_NAME must be a valid lowercase Kubernetes name"
unfolding from_env post_init unless
refused_name = refl

runtime_ready_example :
    (state : State) × (startup settings created ≡ ok state)
    × (readiness settings created ≡ not_ready)
    × (readiness settings state ≡ Reply.ready "senti-2" "v2")
    × (readiness settings (shutdown state) ≡ not_ready)
    × (matches_model_name "senti-2" ≡ true)
    × (settings.model_version ≡ settings.baked_model_version)
    × IsPort (pos 9090)
runtime_ready_example = runtime_ready unicode env settings accepted

tokens_of_text : find_tokens "it's GOOD, not bad" ≡ "it's" ∷ "not" ∷ "bad" ∷ []
unfolding find_tokens
tokens_of_text = refl

-- Numbers of tenths, exact, each a difference.
abbrev Difference : Type 0
Difference = ℕ × ℕ

abbrev plus : Difference → Difference → Difference
plus (a, b) (c, d) = (a + c, b + d)

abbrev total : List Difference → Difference
total [] = (0, 0)
total (x ∷ xs) = plus x (total xs)

abbrev swap : Difference → Difference
swap (a, b) = (b, a)

abbrev exact : Floats
exact = record {
  Double = Difference;
  tenths = λ negative n. if negative then (0, n) else (n, 0);
  add = plus;
  sub = λ x y. plus x (swap y);
  neg = swap;
  div = λ x y. x;
  sum = total;
  exp = λ x. if leb (7100 + x.1) x.0 then none else some (10, 0);
  at_least = λ x y. leb (y.0 + x.1) (x.0 + y.1);
  round = λ x n. x;
}

abbrev Below : Difference → ℕ → Type 0
Below x n = n * 10 + x.0 ≤ x.1

total-Below : (xs : List Difference) → All (λ x. Below x 1) xs → Below (total xs) (length xs)
total-Below [] all = omega arith
total-Below ((a, b) ∷ xs) all = let rest = total-Below xs all.1 in let first = all.0 in omega arith

exact-Rounds : Rounds exact
exact-Rounds = record {
  AtMost = Below;
  literal = λ t n le. omega arith;
  add = λ x y m n p q. omega arith;
  sum = λ xs n long short all. let all_of = total-Below xs all in omega arith;
  exp = λ x le. ground arith;
}

-- the word n times
abbrev bads : ℕ → String
bads zero = ""
bads (suc n) = char "b" (char "a" (char "d" (char " " (bads n))))

abbrev words : ℕ → List String
words zero = []
words (suc n) = "bad" ∷ words n

find_tokens-bads : (n : ℕ) → find_tokens (bads n) ≡ words n
unfolding find_tokens
find_tokens-bads zero = refl
find_tokens-bads (suc n) = ap (λ (l : List String). "bad" ∷ l) (find_tokens-bads n)

words-All : (n : ℕ) → All (λ t. is_heavy t ≡ true) (words n)
unfolding is_heavy
words-All zero = tt
words-All (suc n) = (refl, words-All n)

length-words : (n : ℕ) → length (words n) ≡ n
length-words zero = refl
length-words (suc n) = ap suc (length-words n)

abbrev same : String → String
same s = s

abbrev payload : Json
payload = obj (field "text" (str (bads 711)) end)

valid : infer_request same payload ≡ some (bads 711)
unfolding infer_request
valid = refl

abbrev state : State
state = record {
  ready = true;
  classifier = some (record { bias = (true, 1); weights = v2_weights; version = "v2" });
}

started : startup settings created ≡ ok state
unfolding startup
started = refl

infer-overflow_example : infer exact same same settings "req-1" payload state ≡ Reply.uncaught
infer-overflow_example =
    infer-overflow exact exact-Rounds same same settings "req-1" payload (bads 711) state started
      valid (rw (find_tokens-bads 711) (words-All 711))
      (rw (find_tokens-bads 711, length-words 711) (omega arith))
      (rw (find_tokens-bads 711, length-words 711) (omega arith))
