-- ===== src/Prelude/Lists.antt =====
-- Lists measured by native numbers, and lists of texts with their occurrences counted.
use Prim.Native.Nat.{ℕ, suc, ◌+◌, ◌-◌}
use Prim.Native.String.{String}
use mathlib.Core.Path.{◌≡◌}
use mathlib.Core.Bool.{Bool, false, ◌||◌}
use mathlib.Core.List.{List, [], ◌∷◌, ◌++◌}
use native.Mathlib.Omega.{arith}
use text.Mathlib.Text.{◌==◌}
use text.Mathlib.TextEquality.{eq_iff}
use kernexys.Prelude.Tests.{if◌then◌else◌}

module _ {ℓ} {A : Type ℓ} where
  abbrev pub length : List A → ℕ
  length [] = 0
  length (x ∷ xs) = suc (length xs)

  abbrev pub any : (A → Bool) → List A → Bool
  any p [] = false
  any p (x ∷ xs) = p x || any p xs

  pub length-append : (xs ys : List A) → length (xs ++ ys) ≡ length xs + length ys
  length-append [] ys = omega arith
  length-append (x ∷ xs) ys = omega (arith, length-append xs ys)

-- How often a text stands in a list.
abbrev pub count : String → List String → ℕ
count a [] = 0
count a (x ∷ xs) = if x == a then suc (count a xs) else count a xs

-- Without the first occurrence.
abbrev pub remove_first : String → List String → List String
remove_first a [] = []
remove_first a (x ∷ xs) = if x == a then xs else x ∷ remove_first a xs

pub count-append : (a : String) (xs ys : List String) → count a (xs ++ ys) ≡ count a xs + count a ys
count-append a [] ys = omega arith
count-append a (x ∷ xs) ys = ground (arith, count-append a xs ys)

pub count-remove_first :
    (a b : String) (xs : List String)
    → count a (remove_first b xs) ≡ (if b == a then count a xs - 1 else count a xs)
count-remove_first a b [] = ground arith
count-remove_first a b (x ∷ xs) =
    ground (arith, eq_iff x a, eq_iff x b, eq_iff b a, count-remove_first a b xs)

pub length-remove_first :
    (a : String) (xs : List String)
    → length (remove_first a xs) + (if any (λ x. x == a) xs then 1 else 0) ≡ length xs
length-remove_first a [] = ground arith
length-remove_first a (x ∷ xs) = ground (arith, length-remove_first a xs)
