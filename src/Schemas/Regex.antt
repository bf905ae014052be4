-- ===== src/Schemas/Regex.antt =====
-- Regular expressions as re reads them: what an expression may read off the front of a text.
use Prim.Native.String.{◌∷◌ as char}
use Prim.Native.Char.{Char, code}
use kernexys.Prelude.{ℕ, ◌≡◌, ◌⊎◌, String, Bool, true, false, ◌||◌, List, [], ◌∷◌, eqb}

pub data Regex : Type 0 where
  -- one character of a class
  one : (ℕ → Bool) → Regex
  empty : Regex
  sequence : Regex → Regex → Regex
  either : Regex → Regex → Regex
  star : Regex → Regex

abbrev pub optional : Regex → Regex
optional r = Regex.either Regex.empty r

abbrev pub plus : Regex → Regex
plus r = Regex.sequence r (Regex.star r)

-- [...] with these characters
abbrev pub one_of : List ℕ → ℕ → Bool
one_of [] c = false
one_of (x ∷ l) c = eqb c x || one_of l c

-- Any number of reads, one after the other.
pub data Star (R : String → String → Type 0) (t : String) : String → Type 0 where
  stop : Star R t t
  again : {s m : String} → R s m → Star R t m → Star R t s

-- The expression reads the front of `s` and leaves `t`.
abbrev pub Reads : Regex → String → String → Type 0
Reads (Regex.one p) s t = (c : Char) × (s ≡ char c t) × (p (code c) ≡ true)
Reads Regex.empty s t = s ≡ t
Reads (Regex.sequence a b) s t = (m : String) × Reads a s m × Reads b m t
Reads (Regex.either a b) s t = Reads a s t ⊎ Reads b s t
Reads (Regex.star a) s t = Star (Reads a) t s

-- re.fullmatch
abbrev pub Matches : Regex → String → Type 0
Matches r s = Reads r s ""
