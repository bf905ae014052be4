-- ===== src/Metrics/Percentile.antt =====
-- sorted(durations)[int(len(durations) * fraction)], with the product in IEEE double precision.
use Prim.Native.Nat.{◌^◌}
use kernexys.Prelude.{
  ℕ, zero, suc, ◌+◌, ◌*◌, ◌/◌, ◌%◌, Option, none, some, List, [], ◌∷◌, ltb, leb, if◌then◌else◌,
  length,
}

-- by how many bits a number exceeds a 53-bit significand
unfoldable pub excess : ℕ → ℕ → ℕ
excess zero n = 0
excess (suc fuel) n =
    let more : ℕ = suc (excess fuel (n / 2)) in if ltb n 9007199254740992 then 0 else more

-- the multiple of p that is nearest to n, the even one in the middle
unfoldable pub round_to : ℕ → ℕ → ℕ
round_to p n =
    if ltb (2 * (n % p)) p
    then n / p * p
    else if ltb p (2 * (n % p))
    then (n / p + 1) * p
    else (n / p + n / p % 2) * p

-- int(count * x), where x is the double significand / 2^53
unfoldable pub scaled : ℕ → ℕ → ℕ
unfolding excess round_to
scaled significand count =
    let product : ℕ = significand * count in
    round_to (2 ^ excess count product) product / 9007199254740992

-- the doubles 0.95 and 0.99, times 2^53
abbrev pub double_95 : ℕ
double_95 = 8556839292003942

abbrev pub double_99 : ℕ
double_99 = 8917127262193582

abbrev pub get_elem? : {A : Type 0} → List A → ℕ → Option A
get_elem? [] i = none
get_elem? (x ∷ xs) zero = some x
get_elem? (x ∷ xs) (suc i) = get_elem? xs i

unfoldable pub insert : ℕ → List ℕ → List ℕ
insert x [] = x ∷ []
insert x (y ∷ ys) = if leb x y then x ∷ y ∷ ys else y ∷ insert x ys

unfoldable pub sorted : List ℕ → List ℕ
unfolding insert
sorted [] = []
sorted (x ∷ xs) = insert x (sorted xs)

pub record Percentiles : Type 0 where
  pub p50 : ℕ
  pub p95 : ℕ
  pub p99 : ℕ

abbrev pub all_three : Option ℕ → Option ℕ → Option ℕ → Option Percentiles
all_three (some a) (some b) (some c) = some (record { p50 = a; p95 = b; p99 = c })
all_three a b c = none

-- none for an IndexError
unfoldable pub percentiles : List ℕ → Option Percentiles
unfolding scaled sorted
percentiles durations =
    let values : List ℕ = sorted durations in
    all_three (get_elem? values (length durations / 2))
      (get_elem? values (scaled double_95 (length durations)))
      (get_elem? values (scaled double_99 (length durations)))
