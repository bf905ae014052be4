-- ===== src/Schemas/Quantities.antt =====
-- The automaton of _RESOURCE_QUANTITY_PATTERN accepts what the regular expression matches.
use Prim.Native.String.{◌∷◌ as char, [] as blank}
use Prim.Native.Char.{Char, code}
use kernexys.Prelude.{
  ℕ, ◌≡◌, inl, inr, refl, sym, ap, ◌∙◌, String, Bool, true, ◌&&◌, ◌||◌, Option, none, some, [], ◌∷◌,
  leb, eqb, arith, Bool-cases,
}
use kernexys.Settings.Variables.{Unicode}
use kernexys.Schemas.Regex.{optional, one_of, Reads, Matches, Star}
use kernexys.Schemas.QuantityPattern.{
  has_value, decimal_suffix, digit, power, unit, resource_quantity_pattern, remaining,
}
use kernexys.Schemas.Regex.Regex.{one}
use kernexys.Schemas.Patterns.{
  Quantity, is_small_suffix, is_large_suffix, is_sign, is_some, is_digit, unit_step,
  sign_or_digit_step, quantity_step, quantity_accepted, after, matches_quantity,
}

is_some-has_value : (o : Option ℕ) → is_some o ≡ has_value o
is_some-has_value none = refl
is_some-has_value (some d) = refl

module _ (u : Unicode) where
  module _ (c : Char) (s t : String) where
    refused-absurd : {A : Type 0} → Reads (remaining u Quantity.refused) s t → A
    refused-absurd (d, e, h) = absurd (ground arith)

    digit_is : is_digit u (code c) ≡ true → digit u (code c) ≡ true
    unfolding is_digit
    digit_is h =
        sym (
          ap (λ (b : Bool). (leb b'0' (code c) && leb (code c) b'9') || b)
            (is_some-has_value (u.decimal (code c))))
        ∙ h

    class_read : (p : ℕ → Bool) → p (code c) ≡ true → s ≡ t → Reads (one p) (char c s) t
    class_read p h same = (c, ap (λ (x : String). char c x) same, h)

    digits-number :
        digit u (code c) ≡ true
        → Reads (remaining u Quantity.digits) s t
        → Reads (remaining u Quantity.sign) (char c s) t
    digits-number h (m, more, (n, fraction, last)) =
        (n, inl (m, (s, (c, refl, h), more), fraction), last)

    point-number :
        eqb (code c) b'.' ≡ true
        → Reads (remaining u Quantity.point) s t
        → Reads (remaining u Quantity.sign) (char c s) t
    point-number h (m, more, last) = (m, inr (s, (c, refl, ground arith), more), last)

    -- after the number: a suffix or an exponent
    large_e-unit :
        eqb (code c) b'E' ≡ true
        → Reads (remaining u Quantity.large_e) s t
        → Reads (unit u) (char c s) t
    large_e-unit h (inl same) = inr (inl (class_read decimal_suffix (ground arith) same))
    large_e-unit h (inr (inl last)) = inr (inr (s, (c, refl, ground arith), last))
    large_e-unit h (inr (inr more)) = inl (s, (c, refl, ground arith), more)

    suffix-unit :
        is_large_suffix (code c) ≡ true
        → Reads (remaining u Quantity.suffix) s t
        → Reads (unit u) (char c s) t
    suffix-unit h (inl same) = inr (inl (class_read decimal_suffix (ground arith) same))
    suffix-unit h (inr last) = inr (inr (s, (c, refl, ground arith), last))

    unit_step-unit : Reads (remaining u (unit_step (code c))) s t → Reads (unit u) (char c s) t
    unit_step-unit = elim (Bool-cases (eqb (code c) b'e')) [
      | inl h ↦ rw h (λ more. inl (s, (c, refl, ground arith), more))
      | inr a ↦ elim (Bool-cases (eqb (code c) b'E')) [
        | inl h ↦ rw (a, h) (large_e-unit h)
        | inr b ↦ elim (Bool-cases (is_large_suffix (code c))) [
          | inl h ↦ rw (a, b, h) (suffix-unit h)
          | inr d ↦ elim (Bool-cases (is_small_suffix (code c))) [
            | inl h ↦
                rw (a, b, d, h) (λ same. inr (inl (class_read decimal_suffix (ground arith) same)))
            | inr e ↦ rw (a, b, d, e) (λ r. refused-absurd r)
          ]
        ]
      ]
    ]

    number-unit :
        Reads (remaining u (unit_step (code c))) s t → Reads (optional (unit u)) (char c s) t
    number-unit r = inr (unit_step-unit r)

    dot-digits :
        eqb (code c) b'.' ≡ true
        → Reads (remaining u Quantity.fraction) s t
        → Reads (remaining u Quantity.digits) (char c s) t
    dot-digits h (m, more, last) =
        (char c s, Star.stop, (m, inr (s, (c, refl, ground arith), more), last))

    power_step :
        Reads (remaining u (sign_or_digit_step (is_digit u (code c)) (code c))) s t
        → Reads (power u) (char c s) t
    power_step = elim (Bool-cases (is_digit u (code c))) [
      | inl h ↦ rw h (λ more. (char c s, inl refl, (s, (c, refl, digit_is h), more)))
      | inr a ↦ elim (Bool-cases (is_sign (code c))) [
        | inl h ↦ rw (a, h) (λ more. (s, inr (c, refl, ground arith), more))
        | inr b ↦ rw (a, b) (λ r. refused-absurd r)
      ]
    ]

    sign_step :
        Reads (remaining u (quantity_step u Quantity.sign (code c))) s t
        → Reads (remaining u Quantity.sign) (char c s) t
    sign_step = elim (Bool-cases (is_digit u (code c))) [
      | inl h ↦ rw h (digits-number (digit_is h))
      | inr a ↦ elim (Bool-cases (eqb (code c) b'.')) [
        | inl h ↦ rw (a, h) (point-number h)
        | inr b ↦ rw (a, b) (λ r. refused-absurd r)
      ]
    ]

    nothing_step :
        Reads (remaining u (quantity_step u Quantity.nothing (code c))) s t
        → Reads (remaining u Quantity.nothing) (char c s) t
    nothing_step = elim (Bool-cases (is_digit u (code c))) [
      | inl h ↦ rw h (λ r. (char c s, inl refl, digits-number (digit_is h) r))
      | inr a ↦ elim (Bool-cases (eqb (code c) b'.')) [
        | inl h ↦ rw (a, h) (λ r. (char c s, inl refl, point-number h r))
        | inr b ↦ elim (Bool-cases (is_sign (code c))) [
          | inl h ↦ rw (a, b, h) (λ r. (s, inr (c, refl, ground arith), r))
          | inr d ↦ rw (a, b, d) (λ r. refused-absurd r)
        ]
      ]
    ]

    digits_step :
        Reads (remaining u (quantity_step u Quantity.digits (code c))) s t
        → Reads (remaining u Quantity.digits) (char c s) t
    digits_step = elim (Bool-cases (is_digit u (code c))) [
      | inl h ↦ rw h (λ (m, more, last). (m, Star.again (c, refl, digit_is h) more, last))
      | inr a ↦ elim (Bool-cases (eqb (code c) b'.')) [
        | inl h ↦ rw (a, h) (dot-digits h)
        | inr b ↦ rw (a, b) (λ r. (char c s, Star.stop, (char c s, inl refl, number-unit r)))
      ]
    ]

    fraction_step :
        Reads (remaining u (quantity_step u Quantity.fraction (code c))) s t
        → Reads (remaining u Quantity.fraction) (char c s) t
    fraction_step = elim (Bool-cases (is_digit u (code c))) [
      | inl h ↦ rw h (λ (m, more, last). (m, Star.again (c, refl, digit_is h) more, last))
      | inr a ↦ rw a (λ r. (char c s, Star.stop, number-unit r))
    ]

    point_step :
        Reads (remaining u (quantity_step u Quantity.point (code c))) s t
        → Reads (remaining u Quantity.point) (char c s) t
    point_step = elim (Bool-cases (is_digit u (code c))) [
      | inl h ↦ rw h (λ (m, more, last). (m, (s, (c, refl, digit_is h), more), last))
      | inr a ↦ rw a (λ r. refused-absurd r)
    ]

    large_e_step :
        Reads (remaining u (quantity_step u Quantity.large_e (code c))) s t
        → Reads (remaining u Quantity.large_e) (char c s) t
    large_e_step = elim (Bool-cases (eqb (code c) b'i')) [
      | inl h ↦ rw h (λ same. inr (inl (class_read (one_of (b'i' ∷ [])) (ground arith) same)))
      | inr a ↦ rw a (λ r. inr (inr (power_step r)))
    ]

    exponent_step :
        Reads (remaining u (quantity_step u Quantity.exponent (code c))) s t
        → Reads (remaining u Quantity.exponent) (char c s) t
    exponent_step = elim (Bool-cases (is_digit u (code c))) [
      | inl h ↦ rw h (λ more. Star.again (c, refl, digit_is h) more)
      | inr a ↦ rw a (λ r. refused-absurd r)
    ]

    exponent_sign_step :
        Reads (remaining u (quantity_step u Quantity.exponent_sign (code c))) s t
        → Reads (remaining u Quantity.exponent_sign) (char c s) t
    exponent_sign_step = elim (Bool-cases (is_digit u (code c))) [
      | inl h ↦ rw h (λ more. (s, (c, refl, digit_is h), more))
      | inr a ↦ rw a (λ r. refused-absurd r)
    ]

    suffix_step :
        Reads (remaining u (quantity_step u Quantity.suffix (code c))) s t
        → Reads (remaining u Quantity.suffix) (char c s) t
    suffix_step = elim (Bool-cases (eqb (code c) b'i')) [
      | inl h ↦ rw h (λ same. inr (class_read (one_of (b'i' ∷ [])) (ground arith) same))
      | inr a ↦ rw a (λ r. refused-absurd r)
    ]

    remaining_step :
        (q : Quantity)
        → Reads (remaining u (quantity_step u q (code c))) s t
        → Reads (remaining u q) (char c s) t
    remaining_step Quantity.nothing = nothing_step
    remaining_step Quantity.sign = sign_step
    remaining_step Quantity.digits = digits_step
    remaining_step Quantity.fraction = fraction_step
    remaining_step Quantity.point = point_step
    remaining_step Quantity.small_e = power_step
    remaining_step Quantity.large_e = large_e_step
    remaining_step Quantity.exponent_sign = exponent_sign_step
    remaining_step Quantity.exponent = exponent_step
    remaining_step Quantity.suffix = suffix_step
    remaining_step Quantity.whole = λ r. refused-absurd r
    remaining_step Quantity.refused = λ r. refused-absurd r

  remaining_end : (q : Quantity) → quantity_accepted q ≡ true → Matches (remaining u q) ""
  remaining_end Quantity.digits h = ("", Star.stop, ("", inl refl, inl refl))
  remaining_end Quantity.fraction h = ("", Star.stop, inl refl)
  remaining_end Quantity.large_e h = inl refl
  remaining_end Quantity.exponent h = Star.stop
  remaining_end Quantity.suffix h = inl refl
  remaining_end Quantity.whole h = refl
  remaining_end Quantity.nothing h = absurd (ground arith)
  remaining_end Quantity.sign h = absurd (ground arith)
  remaining_end Quantity.point h = absurd (ground arith)
  remaining_end Quantity.small_e h = absurd (ground arith)
  remaining_end Quantity.exponent_sign h = absurd (ground arith)
  remaining_end Quantity.refused h = absurd (ground arith)

  accepted-Matches :
      (q : Quantity) (s : String)
      → quantity_accepted (after (quantity_step u) q s) ≡ true
      → Matches (remaining u q) s
  accepted-Matches q blank h = remaining_end q h
  accepted-Matches q (char c s) h =
      remaining_step c s "" q (accepted-Matches (quantity_step u q (code c)) s h)

  -- What matches_quantity accepts is matched by the pattern.
  pub matches_quantity-Matches :
      (s : String) → matches_quantity u s ≡ true → Matches (resource_quantity_pattern u) s
  unfolding matches_quantity
  matches_quantity-Matches s h = accepted-Matches Quantity.nothing s h
