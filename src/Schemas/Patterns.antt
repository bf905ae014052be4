-- ===== src/Schemas/Patterns.antt =====
-- The regular expressions of app/schemas.py as automata: each reads a text once, from left to right.
use Prim.Native.String.{◌∷◌ as char, [] as blank}
use Prim.Native.Char.{code}
use kernexys.Prelude.{
  ℕ, zero, suc, String, Bool, true, false, not, ◌&&◌, ◌||◌, Option, none, some, leb, eqb,
  if◌then◌else◌,
}
use kernexys.Settings.Variables.{Unicode}

-- [a-z0-9]
abbrev pub is_lower_alnum : ℕ → Bool
is_lower_alnum c = (leb b'a' c && leb c b'z') || (leb b'0' c && leb c b'9')

-- [A-Za-z0-9]
abbrev pub is_alnum : ℕ → Bool
is_alnum c = is_lower_alnum c || (leb b'A' c && leb c b'Z')

-- (?:[inner]*[outer])?$ after a character of the kind `outer`; `closed` if the last one was
abbrev tail_matches : (ℕ → Bool) → (ℕ → Bool) → Bool → String → Bool
tail_matches outer inner closed blank = closed
tail_matches outer inner closed (char c s) =
    let after_outer : Bool = tail_matches outer inner true s in
    let after_inner : Bool = tail_matches outer inner false s in
    if outer (code c) then after_outer else inner (code c) && after_inner

-- ^[outer](?:[inner]*[outer])?$
abbrev name_matches : (ℕ → Bool) → (ℕ → Bool) → String → Bool
name_matches outer inner blank = false
name_matches outer inner (char c s) = outer (code c) && tail_matches outer inner true s

-- the pattern of ResourceName
unfoldable pub matches_resource_name : String → Bool
matches_resource_name s = name_matches is_lower_alnum (λ c. eqb c b'-') s

-- the pattern of VersionName
unfoldable pub matches_version_name : String → Bool
matches_version_name s = name_matches is_alnum (λ c. eqb c b'-' || eqb c b'.' || eqb c b'_') s

-- the state after a text
abbrev pub after : {Q : Type 0} → (Q → ℕ → Q) → Q → String → Q
after step q blank = q
after step q (char c s) = after step (step q (code c)) s

-- Of a part of a name: nothing read yet, or its last character [a-z0-9] or one of - and . ; the flag says
-- that the prefix is behind.
pub data Name : Type 0 where
  begun : Bool → Name
  closed : Bool → Name
  inside : Bool → Name
  refused : Name

abbrev pub name_step : Name → ℕ → Name
name_step (Name.begun slash) c = if is_lower_alnum c then Name.closed slash else Name.refused
name_step (Name.closed slash) c =
    if is_lower_alnum c
    then Name.closed slash
    else if eqb c b'-' || eqb c b'.'
    then Name.inside slash
    else if eqb c b'/' && not slash
    then Name.begun true
    else Name.refused
name_step (Name.inside slash) c =
    if is_lower_alnum c
    then Name.closed slash
    else if eqb c b'-' || eqb c b'.'
    then Name.inside slash
    else Name.refused
name_step Name.refused c = Name.refused

abbrev pub name_accepted : Name → Bool
name_accepted (Name.closed slash) = true
name_accepted other = false

-- _RESOURCE_NAME_PATTERN.fullmatch
unfoldable pub matches_kubernetes_name : String → Bool
matches_kubernetes_name s = name_accepted (after name_step (Name.begun false) s)

-- What was read of a quantity: nothing, a sign, digits, a fraction, a point that needs a digit, an e, an E
-- (a suffix or an exponent), the sign of an exponent, an exponent, a suffix that i may follow, all.
pub data Quantity : Type 0 where
  nothing sign digits fraction point small_e large_e exponent_sign exponent suffix whole refused :
      Quantity

-- [numk], and [KMGTP]
abbrev pub is_small_suffix : ℕ → Bool
is_small_suffix c = eqb c b'n' || eqb c b'u' || eqb c b'm' || eqb c b'k'

abbrev pub is_large_suffix : ℕ → Bool
is_large_suffix c = eqb c b'K' || eqb c b'M' || eqb c b'G' || eqb c b'T' || eqb c b'P'

abbrev pub is_sign : ℕ → Bool
is_sign c = eqb c b'+' || eqb c b'-'

-- after the digits of a number
abbrev pub unit_step : ℕ → Quantity
unit_step c =
    if eqb c b'e'
    then Quantity.small_e
    else if eqb c b'E'
    then Quantity.large_e
    else if is_large_suffix c
    then Quantity.suffix
    else if is_small_suffix c
    then Quantity.whole
    else Quantity.refused

abbrev pub sign_or_digit_step : Bool → ℕ → Quantity
sign_or_digit_step digit c =
    if digit
    then Quantity.exponent
    else if is_sign c
    then Quantity.exponent_sign
    else Quantity.refused

abbrev pub quantity_accepted : Quantity → Bool
quantity_accepted Quantity.digits = true
quantity_accepted Quantity.fraction = true
quantity_accepted Quantity.large_e = true
quantity_accepted Quantity.exponent = true
quantity_accepted Quantity.suffix = true
quantity_accepted Quantity.whole = true
quantity_accepted other = false

abbrev pub is_some : Option ℕ → Bool
is_some none = false
is_some (some d) = true

module _ (u : Unicode) where
  -- \d: a decimal digit of any script
  unfoldable pub is_digit : ℕ → Bool
  is_digit c = (leb b'0' c && leb c b'9') || is_some (u.decimal c)

  abbrev pub quantity_step : Quantity → ℕ → Quantity
  quantity_step Quantity.nothing c =
      if is_digit c
      then Quantity.digits
      else if eqb c b'.'
      then Quantity.point
      else if is_sign c
      then Quantity.sign
      else Quantity.refused
  quantity_step Quantity.sign c =
      if is_digit c
      then Quantity.digits
      else if eqb c b'.'
      then Quantity.point
      else Quantity.refused
  quantity_step Quantity.digits c =
      if is_digit c then Quantity.digits else if eqb c b'.' then Quantity.fraction else unit_step c
  quantity_step Quantity.fraction c = if is_digit c then Quantity.fraction else unit_step c
  quantity_step Quantity.point c = if is_digit c then Quantity.fraction else Quantity.refused
  quantity_step Quantity.small_e c = sign_or_digit_step (is_digit c) c
  quantity_step Quantity.large_e c =
      if eqb c b'i' then Quantity.whole else sign_or_digit_step (is_digit c) c
  quantity_step Quantity.exponent_sign c =
      if is_digit c then Quantity.exponent else Quantity.refused
  quantity_step Quantity.exponent c = if is_digit c then Quantity.exponent else Quantity.refused
  quantity_step Quantity.suffix c = if eqb c b'i' then Quantity.whole else Quantity.refused
  quantity_step Quantity.whole c = Quantity.refused
  quantity_step Quantity.refused c = Quantity.refused

  -- _RESOURCE_QUANTITY_PATTERN.fullmatch
  unfoldable pub matches_quantity : String → Bool
  unfolding is_digit
  matches_quantity s = quantity_accepted (after quantity_step Quantity.nothing s)

-- [0-9a-f]{n}
abbrev hex_matches : ℕ → String → Bool
hex_matches zero blank = true
hex_matches (suc n) (char c s) =
    ((leb b'0' (code c) && leb (code c) b'9') || (leb b'a' (code c) && leb (code c) b'f'))
    && hex_matches n s
hex_matches n s = false

-- a text after a prefix
abbrev after_prefix : String → String → Option String
after_prefix blank s = some s
after_prefix (char p prefix) blank = none
after_prefix (char p prefix) (char c s) =
    if eqb (code p) (code c) then after_prefix prefix s else none

abbrev hex_rest : Option String → Bool
hex_rest none = false
hex_rest (some s) = hex_matches 64 s

-- re.fullmatch(r"sha256:[0-9a-f]{64}", value)
unfoldable pub matches_digest : String → Bool
matches_digest value = hex_rest (after_prefix "sha256:" value)
