-- ===== src/Settings/Variables.antt =====
-- Reading one variable of the process environment: _positive_int and _boolean of app/config.py.
-- runtime/runtime_app/config.py declares the same _positive_int.
use Prim.Native.String.{◌∷◌ as char, [] as blank, ◌++◌ as append}
use Prim.Native.Char.{code}
use kernexys.Prelude.{
  ℕ, zero, suc, ◌+◌, String, Bool, true, false, ◌&&◌, ◌||◌, Option, none, some, List, [], ◌∷◌,
  Result, ok, err, ◌==◌, ltb, if◌then◌else◌, ℤ, pos, negsuc,
}
use kernexys.Http.Integer.{int}

-- The parts of the Unicode database that Python's texts use: str.isspace and the decimal value of a
-- character, and the case mappings of a text.
pub record Unicode : Type 0 where
  pub is_space : ℕ → Bool
  pub decimal : ℕ → Option ℕ
  pub lower : String → String
  pub upper : String → String

-- os.environ
abbrev pub Environment : Type 0
Environment = String → Option String

-- os.getenv(name, default)
abbrev pub getenv : Environment → String → String → String
getenv env name default = elim (env name) [ none ↦ default | some raw ↦ raw ]

abbrev pub positive_or_error : String → Option ℤ → Result String ℤ
positive_or_error name none = err (append name " must be an integer")
positive_or_error name (some (negsuc n)) = err (append name " must be greater than zero")
positive_or_error name (some (pos zero)) = err (append name " must be greater than zero")
positive_or_error name (some (pos (suc n))) = ok (pos (suc n))

unfoldable pub is_truth : String → Bool
is_truth s = s == "1" || s == "true" || s == "yes" || s == "on"

unfoldable pub is_falsehood : String → Bool
is_falsehood s = s == "0" || s == "false" || s == "no" || s == "off"

abbrev pub boolean_of : String → String → Result String Bool
boolean_of name normalized =
    if is_truth normalized
    then ok true
    else if is_falsehood normalized
    then ok false
    else err (append name " must be a boolean")

module _ (u : Unicode) where
  -- Python reads a space as ' ', a decimal digit of any script as 0 to 9, and stops at anything else.
  abbrev as_ascii : String → List ℕ
  as_ascii blank = []
  as_ascii (char c s) =
      let rest : List ℕ = as_ascii s in
      if ltb (code c) 127
      then code c ∷ rest
      else if u.is_space (code c)
      then 32 ∷ rest
      else elim (u.decimal (code c)) [ none ↦ b'?' ∷ [] | some d ↦ (b'0' + d) ∷ rest ]

  -- int(raw); none for a ValueError
  unfoldable pub int_of_text : String → Option ℤ
  unfolding int
  int_of_text raw = int (as_ascii raw)

  abbrev pub int_from : String → ℤ → Option String → Result String ℤ
  int_from name default none = ok default
  int_from name default (some raw) = positive_or_error name (int_of_text raw)

  unfoldable pub positive_int : Environment → String → ℤ → Result String ℤ
  unfolding int_of_text
  positive_int env name default = int_from name default (env name)

  -- raw.strip()
  abbrev pub lstrip : String → String
  lstrip blank = ""
  lstrip (char c s) = let rest : String = lstrip s in if u.is_space (code c) then rest else char c s

  abbrev pub rstrip : String → String
  rstrip blank = ""
  rstrip (char c s) =
      let rest : String = rstrip s in if u.is_space (code c) && rest == "" then "" else char c rest

  unfoldable pub strip : String → String
  strip s = rstrip (lstrip s)

  abbrev pub boolean_from : String → Bool → Option String → Result String Bool
  boolean_from name default none = ok default
  boolean_from name default (some raw) = boolean_of name (u.lower (strip raw))

  unfoldable pub boolean : Environment → String → Bool → Result String Bool
  unfolding is_truth is_falsehood strip
  boolean env name default = boolean_from name default (env name)
