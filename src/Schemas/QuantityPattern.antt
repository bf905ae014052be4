-- ===== src/Schemas/QuantityPattern.antt =====
-- _RESOURCE_QUANTITY_PATTERN as a regular expression, and what it still allows in each state of the
-- automaton.
use kernexys.Prelude.{ℕ, Bool, true, false, ◌&&◌, ◌||◌, Option, none, some, [], ◌∷◌, leb}
use kernexys.Settings.Variables.{Unicode}
use kernexys.Schemas.Regex.{Regex, optional, plus, one_of}
use kernexys.Schemas.Regex.Regex.{one, empty, sequence, either, star}
use kernexys.Schemas.Patterns.{Quantity}

abbrev pub has_value : Option ℕ → Bool
has_value none = false
has_value (some d) = true

-- [numkKMGTPE]
abbrev pub decimal_suffix : ℕ → Bool
decimal_suffix = one_of (b'n' ∷ b'u' ∷ b'm' ∷ b'k' ∷ b'K' ∷ b'M' ∷ b'G' ∷ b'T' ∷ b'P' ∷ b'E' ∷ [])

-- [KMGTPE]
abbrev pub binary_suffix : ℕ → Bool
binary_suffix = one_of (b'K' ∷ b'M' ∷ b'G' ∷ b'T' ∷ b'P' ∷ b'E' ∷ [])

abbrev pub sign : Regex
sign = one (one_of (b'+' ∷ b'-' ∷ []))

abbrev pub dot : Regex
dot = one (one_of (b'.' ∷ []))

abbrev pub i : Regex
i = one (one_of (b'i' ∷ []))

module _ (u : Unicode) where
  -- \d
  abbrev pub digit : ℕ → Bool
  digit c = (leb b'0' c && leb c b'9') || has_value (u.decimal c)

  -- \d+(?:\.\d*)?|\.\d+
  abbrev pub number : Regex
  number =
      either (sequence (plus (one digit)) (optional (sequence dot (star (one digit)))))
        (sequence dot (plus (one digit)))

  -- [+-]?\d+
  abbrev pub power : Regex
  power = sequence (optional sign) (plus (one digit))

  -- [eE][+-]?\d+|[numkKMGTPE]|[KMGTPE]i
  abbrev pub unit : Regex
  unit =
      either (sequence (one (one_of (b'e' ∷ b'E' ∷ []))) power)
        (either (one decimal_suffix) (sequence (one binary_suffix) i))

  -- [+-]?(?:\d+(?:\.\d*)?|\.\d+)(?:[eE][+-]?\d+|[numkKMGTPE]|[KMGTPE]i)?
  abbrev pub resource_quantity_pattern : Regex
  resource_quantity_pattern = sequence (optional sign) (sequence number (optional unit))

  -- what the pattern still allows in a state
  abbrev pub remaining : Quantity → Regex
  remaining Quantity.nothing = resource_quantity_pattern
  remaining Quantity.sign = sequence number (optional unit)
  remaining Quantity.digits =
      sequence (star (one digit))
        (sequence (optional (sequence dot (star (one digit)))) (optional unit))
  remaining Quantity.fraction = sequence (star (one digit)) (optional unit)
  remaining Quantity.point = sequence (plus (one digit)) (optional unit)
  remaining Quantity.small_e = power
  remaining Quantity.large_e = optional (either i power)
  remaining Quantity.exponent_sign = plus (one digit)
  remaining Quantity.exponent = star (one digit)
  remaining Quantity.suffix = optional i
  remaining Quantity.whole = empty
  remaining Quantity.refused = one (one_of [])
