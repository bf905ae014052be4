-- ===== src/Runtime/Classifier.antt =====
-- runtime/runtime_app/classifier.py. Python's floats, math.exp and sum are operations of an interface.
use Prim.Native.String.{◌∷◌ as char, [] as blank, ◌++◌ as append}
use Prim.Native.Char.{code}
use kernexys.Prelude.{
  ℕ, String, Bool, true, false, ◌&&◌, ◌||◌, Option, none, some, List, [], ◌∷◌, Result, ok, err, eqb,
  leb, if◌then◌else◌, map,
}
use kernexys.Prelude.Dict.{Dict, lookup}

-- `exp` is none for an OverflowError; `round x n` keeps n decimals.
pub record Floats : Type 1 where
  pub Double : Type 0
  -- the double next to n tenths, negative or not
  pub tenths : Bool → ℕ → Double
  pub add : Double → Double → Double
  pub sub : Double → Double → Double
  pub neg : Double → Double
  pub div : Double → Double → Double
  pub sum : List Double → Double
  pub exp : Double → Option Double
  pub at_least : Double → Double → Bool
  pub round : Double → ℕ → Double

-- a decimal with one place: its sign and its tenths
abbrev pub Decimal : Type 0
Decimal = Bool × ℕ

abbrev pub plus : ℕ → Decimal
plus n = (false, n)

abbrev pub minus : ℕ → Decimal
minus n = (true, n)

abbrev pub v1_weights : Dict Decimal
v1_weights =
    ("excellent", plus 18)
    ∷ ("good", plus 12)
    ∷ ("great", plus 16)
    ∷ ("happy", plus 11)
    ∷ ("love", plus 18)
    ∷ ("bad", minus 13)
    ∷ ("hate", minus 18)
    ∷ ("poor", minus 12)
    ∷ ("sad", minus 10)
    ∷ ("terrible", minus 19)
    ∷ []

abbrev pub v2_weights : Dict Decimal
v2_weights =
    ("excellent", plus 17)
    ∷ ("fast", plus 8)
    ∷ ("good", plus 11)
    ∷ ("great", plus 15)
    ∷ ("happy", plus 10)
    ∷ ("love", plus 17)
    ∷ ("reliable", plus 10)
    ∷ ("stable", plus 9)
    ∷ ("bad", minus 12)
    ∷ ("flaky", minus 12)
    ∷ ("hate", minus 17)
    ∷ ("poor", minus 11)
    ∷ ("sad", minus 9)
    ∷ ("slow", minus 8)
    ∷ ("terrible", minus 18)
    ∷ []

-- _VERSIONED_WEIGHTS
unfoldable pub versioned_weights : Dict (Decimal × Dict Decimal)
versioned_weights = ("v1", (minus 2, v1_weights)) ∷ ("v2", (minus 1, v2_weights)) ∷ []

pub record SentimentClassifier : Type 0 where
  pub bias : Decimal
  pub weights : Dict Decimal
  pub version : String

abbrev loaded : String → Option (Decimal × Dict Decimal) → Result String SentimentClassifier
loaded version none = err (append "unsupported baked model version: " version)
loaded version (some (bias, weights)) =
    ok (record { bias = bias; weights = weights; version = version })

-- SentimentClassifier(version), or the text of a ValueError
unfoldable pub new_classifier : String → Result String SentimentClassifier
unfolding versioned_weights
new_classifier version = loaded version (lookup version versioned_weights)

-- [a-z']
abbrev is_token_character : ℕ → Bool
is_token_character c = (leb b'a' c && leb c b'z') || eqb c b'\''

-- a token that ends here, before the others
abbrev closed : String → List String → List String
closed blank tokens = tokens
closed (char c s) tokens = char c s ∷ tokens

-- the token that the text starts with, which may be empty, and the tokens after it
abbrev scan : String → String × List String
scan blank = ("", [])
scan (char c s) =
    let (token, tokens) = scan s in
    if is_token_character (code c) then (char c token, tokens) else ("", closed token tokens)

-- _TOKEN_PATTERN.findall
unfoldable pub find_tokens : String → List String
find_tokens text = let (token, tokens) = scan text in closed token tokens

pub record Prediction (Double : Type 0) : Type 0 where
  pub label : String
  pub confidence : Double

module _ (f : Floats) where
  abbrev pub float : Decimal → f.Double
  float (negative, n) = f.tenths negative n

  abbrev weight_of : Option Decimal → f.Double
  weight_of none = f.tenths false 0
  weight_of (some d) = float d

  -- self._weights.get(token, 0.0)
  abbrev pub weight : Dict Decimal → String → f.Double
  weight weights token = weight_of (lookup token weights)

  abbrev one : f.Double
  one = f.tenths false 10

  abbrev labelled : f.Double → Prediction f.Double
  labelled p =
      if f.at_least p (f.tenths false 5)
      then record { label = "positive"; confidence = f.round p 6 }
      else record { label = "negative"; confidence = f.round (f.sub one p) 6 }

  abbrev pub from_exp : Option f.Double → Option (Prediction f.Double)
  from_exp none = none
  from_exp (some e) = some (labelled (f.div one (f.add one e)))

  -- none for an OverflowError
  unfoldable pub predict :
      (String → String) → SentimentClassifier → String → Option (Prediction f.Double)
  unfolding find_tokens
  predict lower c text =
      let tokens : List String = find_tokens (lower text) in
      let raw_score : f.Double = f.add (float c.bias) (f.sum (map (weight c.weights) tokens)) in
      from_exp (f.exp (f.neg raw_score))
