-- ===== src/Runtime/Overflow.antt =====
-- A request of negative words whose classification raises an OverflowError.
use kernexys.Prelude.{
  ℕ, suc, ◌+◌, ◌*◌, ◌≤◌, ◌≡◌, refl, ap, ◌∙◌, ◌⊎◌, inl, inr, String, Bool, true, ◌||◌, none, some,
  List, [], ◌∷◌, Result, ok, err, ◌==◌, eq_iff, length, map, arith, Bool-cases,
}
use kernexys.Prelude.Dict.{lookup}
use kernexys.Json.{Json}
use kernexys.Settings.Valid.{Returns, ok-Returns}
use kernexys.Runtime.Config.{Settings}
use kernexys.Runtime.Classifier.{
  Floats, SentimentClassifier, new_classifier, find_tokens, predict, weight, float,
}
use kernexys.Runtime.App.{State, Reply, with_classifier, created, startup, infer, infer_request}

abbrev pub All : {A : Type 0} → (A → Type 0) → List A → Type 0
All p [] = Unit {0}
All p (x ∷ xs) = p x × All p xs

-- What IEEE doubles rounded to the nearest and math.exp keep to. `AtMost x n` says that x ≤ -n, for an n
-- that is a double itself, so that rounding keeps the bound; a sum of n numbers may fall short by one, as
-- much more than its errors amount to.
length-map : {A B : Type 0} (g : A → B) (xs : List A) → length (map g xs) ≡ length xs
length-map g [] = refl
length-map g (x ∷ xs) = ap suc (length-map g xs)

pub record Rounds (f : Floats) : Type 1 where
  pub AtMost : f.Double → ℕ → Type 0
  pub literal : (t n : ℕ) → n * 10 ≤ t → AtMost (f.tenths true t) n
  pub add : (x y : f.Double) (m n : ℕ) → AtMost x m → AtMost y n → AtMost (f.add x y) (m + n)
  pub sum :
      (xs : List f.Double) (n : ℕ)
      → n + 1 ≤ length xs
      → length xs ≤ 4096
      → All (λ x. AtMost x 1) xs
      → AtMost (f.sum xs) n
  -- e^710 is above the largest double
  pub exp : (x : f.Double) → AtMost x 710 → f.exp (f.neg x) ≡ none

-- words whose weight is -1 or less in both versions
unfoldable pub is_heavy : String → Bool
is_heavy t = t == "bad" || t == "hate" || t == "poor" || t == "terrible"

IsHeavy : SentimentClassifier → Type 0
IsHeavy c =
    ((n : ℕ) × (c.bias ≡ (true, n)))
    × ((t : String)
        → is_heavy t ≡ true
        → (n : ℕ) × (lookup t c.weights ≡ some (true, n)) × (10 ≤ n))

heavy-cases :
    (t : String)
    → is_heavy t ≡ true
    → (t ≡ "bad") ⊎ ((t ≡ "hate") ⊎ ((t ≡ "poor") ⊎ (t ≡ "terrible")))
unfolding is_heavy
heavy-cases t h =
    ground (arith, eq_iff t "bad", eq_iff t "hate", eq_iff t "poor", eq_iff t "terrible")

IsHeavy-words :
    (c : SentimentClassifier) (a b d e : ℕ)
    → ((n : ℕ) × (c.bias ≡ (true, n)))
    → (lookup "bad" c.weights ≡ some (true, 10 + a))
    → (lookup "hate" c.weights ≡ some (true, 10 + b))
    → (lookup "poor" c.weights ≡ some (true, 10 + d))
    → (lookup "terrible" c.weights ≡ some (true, 10 + e))
    → IsHeavy c
unfolding IsHeavy
IsHeavy-words c a b d e bias bad hate poor terrible = (
  bias,
  λ t h. elim (heavy-cases t h) [
    | inl is ↦ (10 + a, rw is bad, omega arith)
    | inr (inl is) ↦ (10 + b, rw is hate, omega arith)
    | inr (inr (inl is)) ↦ (10 + d, rw is poor, omega arith)
    | inr (inr (inr is)) ↦ (10 + e, rw is terrible, omega arith)
  ],
)

v1-IsHeavy : Returns (new_classifier "v1") IsHeavy
unfolding new_classifier
v1-IsHeavy = ok-Returns IsHeavy _ (IsHeavy-words _ 3 8 2 9 (2, refl) refl refl refl refl)

v2-IsHeavy : Returns (new_classifier "v2") IsHeavy
unfolding new_classifier
v2-IsHeavy = ok-Returns IsHeavy _ (IsHeavy-words _ 2 7 1 8 (1, refl) refl refl refl refl)

new_classifier-IsHeavy : (version : String) → Returns (new_classifier version) IsHeavy
unfolding new_classifier
new_classifier-IsHeavy version c h = elim (Bool-cases ("v1" == version)) [
  | inl one ↦ v1-IsHeavy c (ap new_classifier ((eq_iff "v1" version).0 one) ∙ h)
  | inr other ↦ elim (Bool-cases ("v2" == version)) [
    | inl two ↦ v2-IsHeavy c (ap new_classifier ((eq_iff "v2" version).0 two) ∙ h)
    | inr unknown ↦ absurd (ground arith)
  ]
]

startup-ok :
    (settings : Settings) (state : State)
    → startup settings created ≡ ok state
    → (c : SentimentClassifier) × (new_classifier settings.model_version ≡ ok c)
      × (state.ready ≡ true)
      × (state.classifier ≡ some c)
unfolding startup
startup-ok settings = from_result (new_classifier settings.model_version) refl
  where
    from_result :
        (r : Result String SentimentClassifier)
        → new_classifier settings.model_version ≡ r
        → Returns (with_classifier r) (λ s.
          (c : SentimentClassifier) × (new_classifier settings.model_version ≡ ok c)
          × (s.ready ≡ true)
          × (s.classifier ≡ some c))
    from_result (err e) h = λ s k. absurd (cc)
    from_result (ok c) h = ok-Returns _ _ (c, h, refl, refl)

module _ (f : Floats) (rounds : Rounds f) where
  weights-AtMost :
      (c : SentimentClassifier) (tokens : List String)
      → IsHeavy c
      → All (λ t. is_heavy t ≡ true) tokens
      → All (λ x. rounds.AtMost x 1) (map (weight f c.weights) tokens)
  unfolding IsHeavy
  weights-AtMost c [] heavy all = tt
  weights-AtMost c (t ∷ tokens) heavy all =
      let (n, found, large) = heavy.1 t all.0 in
      (rw found (rounds.literal n 1 (omega arith)), weights-AtMost c tokens heavy all.1)

  predict-overflow :
      (lower : String → String) (c : SentimentClassifier) (text : String)
      → IsHeavy c
      → All (λ t. is_heavy t ≡ true) (find_tokens (lower text))
      → 711 ≤ length (find_tokens (lower text))
      → length (find_tokens (lower text)) ≤ 4096
      → predict f lower c text ≡ none
  unfolding predict IsHeavy
  predict-overflow lower c text heavy all long short =
      let tokens : List String = find_tokens (lower text) in
      let (n, negative) = heavy.0 in
      let bias : rounds.AtMost (float f c.bias) 0 =
        rw negative (rounds.literal n 0 (omega arith)) in
      let same : length (map (weight f c.weights) tokens) ≡ length tokens = length-map _ _ in
      let total : rounds.AtMost (f.sum (map (weight f c.weights) tokens)) 710 =
        rounds.sum _ 710 (omega (arith, same)) (omega (arith, same))
          (weights-AtMost c tokens heavy all) in
      rw (rounds.exp _ (rounds.add _ _ 0 710 bias total)) refl

  -- When sums of doubles round to the nearest and math.exp overflows from 710 on: for an
  -- application that has started, a valid request with 711 to 4096 tokens, each one of bad,
  -- hate, poor and terrible, ends in an exception that no handler takes.
  pub infer-overflow :
      (lower trim : String → String) (settings : Settings) (request_id : String) (payload : Json)
      (text : String) (state : State)
      → startup settings created ≡ ok state
      → infer_request trim payload ≡ some text
      → All (λ t. is_heavy t ≡ true) (find_tokens (lower text))
      → 711 ≤ length (find_tokens (lower text))
      → length (find_tokens (lower text)) ≤ 4096
      → infer f lower trim settings request_id payload state ≡ Reply.uncaught
  unfolding startup infer
  infer-overflow lower trim settings request_id payload text state start valid all long short =
      let (c, loaded, ready, present) = startup-ok settings state start in
      let raised : predict f lower c text ≡ none =
        predict-overflow lower c text (new_classifier-IsHeavy settings.model_version c loaded) all
          long short in
      rw (valid, ready, present, raised) refl
