-- ===== src/Metrics/Bounds.antt =====
-- The indexes of the percentiles are in range and in order.
use Prim.Native.Nat.{◌^◌}
use native.Mathlib.Nat.{mul-le-mul_right, div-add-mod', mod-lt, pow-succ', one-le-pow}
use kernexys.Prelude.{
  ℕ, zero, suc, ◌+◌, ◌*◌, ◌/◌, ◌%◌, ◌≤◌, ◌<◌, ◌≡◌, ◌⊎◌, inl, inr, refl, ap, false, ltb, arith,
  Bool-cases,
}
use kernexys.Metrics.Percentile.{excess, round_to, scaled, double_95, double_99}

even :
    (p q n b : ℕ)
    → b < 2
    → 2 * (q * p) + p ≡ 2 * n
    → 0 < p
    → (2 * ((q + b) * p) ≤ 2 * n + p) × (2 * n ≤ 2 * ((q + b) * p) + p)
even p q n zero lt e h = grind arith
even p q n (suc zero) lt e h = grind arith
even p q n (suc (suc b)) lt e h = absurd (omega arith)

-- no more than half of a unit away
round_to-near : (p n : ℕ) → 0 < p → (2 * round_to p n ≤ 2 * n + p) × (2 * n ≤ 2 * round_to p n + p)
unfolding round_to
round_to-near p n h =
    let parts : n / p * p + n % p ≡ n = div-add-mod' n p in
    let short : n % p < p = mod-lt n h in
    elim (Bool-cases (ltb (2 * (n % p)) p)) [
      | inl below ↦ rw below (ground arith)
      | inr more ↦ elim (Bool-cases (ltb p (2 * (n % p)))) [
        | inl above ↦ rw (more, above) (grind arith)
        | inr middle ↦
            rw (more, middle)
              (even p (n / p) n (n / p % 2) (ground arith) (ground arith) (ground arith))
      ]
    ]

-- a unit above 1 is small against the number
excess-small : (fuel n : ℕ) → (excess fuel n ≡ 0) ⊎ (4503599627370496 * 2 ^ excess fuel n ≤ n)
unfolding excess
excess-small zero n = inl refl
excess-small (suc fuel) n = elim (Bool-cases (ltb n 9007199254740992)) [
  | inl small ↦ rw small (inl refl)
  | inr large ↦ rw large (inr (step fuel n large (excess-small fuel (n / 2))))
]
  where
    step :
        (fuel n : ℕ)
        → ltb n 9007199254740992 ≡ false
        → (excess fuel (n / 2) ≡ 0) ⊎ (4503599627370496 * 2 ^ excess fuel (n / 2) ≤ n / 2)
        → 4503599627370496 * 2 ^ suc (excess fuel (n / 2)) ≤ n
    step fuel n large (inl z) = rw z (ground arith)
    step fuel n large (inr le) = omega (arith, pow-succ' 2 (excess fuel (n / 2)))

module _ (significand : ℕ) (small : significand < 9007199254740992) (count : ℕ) where
  abbrev rounded : ℕ
  rounded = round_to (2 ^ excess count (significand * count)) (significand * count)

  -- The rounded product differs from the product by no more than the count.
  rounded-near : (rounded ≤ significand * count + count) × (significand * count ≤ rounded + count)
  rounded-near =
      let near =
        round_to-near (2 ^ excess count (significand * count)) (significand * count)
          (one-le-pow (excess count (significand * count)) 2 (omega arith)) in
      let bound : significand * count ≤ 9007199254740991 * count =
        mul-le-mul_right count (omega arith) in
      elim (excess-small count (significand * count)) [
        | inl z ↦
            let one : 2 ^ excess count (significand * count) ≡ 1 = ap (λ (t : ℕ). 2 ^ t) z in
            (omega arith, omega arith)
        | inr le ↦ (omega arith, omega arith)
      ]

-- From half of the list to its end, in order.
pub indexes_in_order :
    (count : ℕ)
    → 0 < count
    → (count / 2 ≤ scaled double_95 count)
      × (scaled double_95 count ≤ scaled double_99 count)
      × (scaled double_99 count < count)
unfolding scaled
indexes_in_order count pos =
    let low = rounded-near double_95 (omega arith) count in
    let high = rounded-near double_99 (omega arith) count in (omega arith, omega arith, omega arith)
