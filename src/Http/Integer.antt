-- ===== src/Http/Integer.antt =====
-- Python's int(text) for a text decoded from Latin-1: spaces around it, a sign, decimal digits with
-- single underscores between, and no more than 4300 digits.
use kernexys.Prelude.{
  ℕ, ◌+◌, ◌-◌, ◌*◌, Bool, true, false, ◌&&◌, ◌||◌, Option, none, some, List, [], ◌∷◌, leb, eqb,
  if◌then◌else◌, ℤ, pos, negsuc, zero, suc,
}

-- str.isspace of a Latin-1 character
is_space : ℕ → Bool
is_space c = (leb 9 c && leb c 13) || (leb 28 c && leb c 32) || eqb c 133 || eqb c 160

is_digit : ℕ → Bool
is_digit c = leb b'0' c && leb c b'9'

drop_spaces : List ℕ → List ℕ
drop_spaces [] = []
drop_spaces (c ∷ s) = elim (is_space c) [ true ↦ drop_spaces s | false ↦ c ∷ s ]

all_spaces : List ℕ → Bool
all_spaces [] = true
all_spaces (c ∷ s) = is_space c && all_spaces s

-- `count` digits with value `acc` are read; the last character was a digit if `after_digit`.
digits : ℕ → ℕ → Bool → List ℕ → Option ℕ
digits acc count after_digit [] = if after_digit && leb count 4300 then some acc else none
digits acc count after_digit (c ∷ s) = elim (is_digit c) [
  | true ↦ digits (acc * 10 + (c - b'0')) (count + 1) true s
  | false ↦ elim (eqb c b'_' && after_digit) [
    | true ↦ digits acc count false s
    | false ↦ if after_digit && all_spaces (c ∷ s) && leb count 4300 then some acc else none
  ]
]

negated : ℕ → ℤ
negated zero = pos zero
negated (suc n) = negsuc n

signed : Bool → Option ℕ → Option ℤ
signed negative none = none
signed true (some n) = some (negated n)
signed false (some n) = some (pos n)

from_sign : List ℕ → Option ℤ
from_sign [] = none
from_sign (c ∷ s) =
    if eqb c b'-'
    then signed true (digits 0 0 false s)
    else if eqb c b'+'
    then signed false (digits 0 0 false s)
    else signed false (digits 0 0 false (c ∷ s))

-- int(text); `none` is a ValueError
unfoldable pub int : List ℕ → Option ℤ
unfolding drop_spaces from_sign digits signed negated is_space is_digit all_spaces
int s = from_sign (drop_spaces s)
