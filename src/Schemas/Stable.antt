-- ===== src/Schemas/Stable.antt =====
-- A value that a validator returned is accepted again and stays as it is.
use Prim.Native.String.{◌∷◌ as char, [] as blank, count}
use Prim.Native.Char.{Char, code}
use mathlib.Core.Path.{subst}
use kernexys.Prelude.{
  ◌≤◌, ◌≡◌, ◌⊎◌, inl, inr, refl, sym, ap, ◌∙◌, String, true, false, ◌&&◌, ◌||◌, [], ◌∷◌, Result, ok,
  err, ◌==◌, arith, Bool-cases,
}
use kernexys.Prelude.Dict.{Dict}
use kernexys.Settings.Variables.{Unicode, strip, lstrip, rstrip}
use kernexys.Settings.Valid.{Returns, bind-Returns, ok-Returns}
use kernexys.Schemas.Regex.{Matches}
use kernexys.Schemas.Names.{resource_name_pattern, matches_kubernetes_name-Matches}
use kernexys.Schemas.QuantityPattern.{resource_quantity_pattern}
use kernexys.Schemas.Quantities.{matches_quantity-Matches}
use kernexys.Schemas.{
  any_space, validate_runtime_image, checked_image, is_resource, is_quantity, checked_resource,
  validate_resources,
}

value_of : {E A : Type 0} → A → Result E A → A
value_of a (ok b) = b
value_of a (err e) = a

ok-inj : {A : Type 0} (a b : A) → Path (Result String A) (ok a) (ok b) → a ≡ b
unfolding value_of
ok-inj a b e = ap (value_of a) e

module _ (u : Unicode) where
  lstrip-cases :
      (s : String)
      → (lstrip u s ≡ "")
        ⊎ ((c : Char) × (t : String) × (u.is_space (code c) ≡ false) × (lstrip u s ≡ char c t))
  lstrip-cases blank = inl refl
  lstrip-cases (char c s) = elim (Bool-cases (u.is_space (code c))) [
    | inl space ↦ rw space (lstrip-cases s)
    | inr letter ↦ inr (c, s, letter, rw letter refl)
  ]

  rstrip_idem : (s : String) → rstrip u (rstrip u s) ≡ rstrip u s
  rstrip_idem blank = refl
  rstrip_idem (char c s) = elim (Bool-cases (u.is_space (code c) && rstrip u s == "")) [
    | inl gone ↦ rw gone refl
    | inr kept ↦ rw (kept, rstrip_idem s, kept) refl
  ]

  rstrip-char :
      (c : Char) (t : String)
      → u.is_space (code c) ≡ false
      → rstrip u (char c t) ≡ char c (rstrip u t)
  rstrip-char c t letter = rw letter refl

  lstrip-char :
      (c : Char) (t : String) → u.is_space (code c) ≡ false → lstrip u (char c t) ≡ char c t
  lstrip-char c t letter = rw letter refl

  -- s.strip().strip() == s.strip()
  strip_idem : (s : String) → strip u (strip u s) ≡ strip u s
  unfolding strip
  strip_idem s = elim (lstrip-cases s) [
    | inl gone ↦ rw gone refl
    | inr (c, t, letter, kept) ↦
        let once : rstrip u (lstrip u s) ≡ char c (rstrip u t) =
          ap (rstrip u) kept ∙ rstrip-char c t letter in
        ap (λ (x : String). rstrip u (lstrip u x)) once
        ∙ ap (rstrip u) (lstrip-char c (rstrip u t) letter)
        ∙ rstrip-char c (rstrip u t) letter
        ∙ ap (λ (x : String). char c x) (rstrip_idem t)
        ∙ sym once
  ]

  checked_image-Returns :
      (value : String)
      → Returns (checked_image u value) (λ v. (v ≡ value) × (checked_image u value ≡ ok value))
  checked_image-Returns value = λ v h. elim (Bool-cases (value == "" || any_space u value)) [
    | inl bad ↦ absurd (ground arith)
    | inr good ↦ (ground arith, rw good refl)
  ]

  image_stable :
      (raw image : String)
      → validate_runtime_image u raw ≡ ok image
      → validate_runtime_image u image ≡ ok image
  unfolding validate_runtime_image
  image_stable raw image h =
      let found = checked_image-Returns (strip u raw) image h in
      rw (found.0, strip_idem raw) found.1

  abbrev pub IsResourceName : String → Type 0
  IsResourceName name = (count name ≤ 253) × Matches resource_name_pattern name

  abbrev pub IsResourceQuantity : String → Type 0
  IsResourceQuantity quantity =
      (count quantity ≤ 64) × Matches (resource_quantity_pattern u) quantity

  -- names and quantities that match their patterns, under the keys of the request
  abbrev pub AreResources : Dict String → Dict String → Type 0
  AreResources [] [] = Unit {0}
  AreResources ((name, raw) ∷ values) ((key, quantity) ∷ d) =
      (key ≡ name)
      × (quantity ≡ strip u raw)
      × IsResourceName key
      × IsResourceQuantity quantity
      × AreResources values d
  AreResources values d = ⊥

  IsNormal : Dict String → Dict String → Type 0
  IsNormal values d = AreResources values d × (validate_resources u d ≡ ok d)

  is_resource-IsResourceName : (name : String) → is_resource u name ≡ true → IsResourceName name
  is_resource-IsResourceName name h =
      (ground arith, matches_kubernetes_name-Matches name (ground arith))

  is_quantity-IsResourceQuantity :
      (quantity : String) → is_quantity u quantity ≡ true → IsResourceQuantity quantity
  is_quantity-IsResourceQuantity quantity h =
      (ground arith, matches_quantity-Matches u quantity (ground arith))

  accepted :
      (name quantity : String)
      → is_resource u name ≡ true
      → is_quantity u quantity ≡ true
      → checked_resource u name quantity ≡ ok (name, quantity)
  accepted name quantity good fine = rw (good, fine) refl

  checked_resource-Returns :
      (name quantity : String)
      → Returns (checked_resource u name quantity) (λ e.
        (e ≡ (name, quantity)) × (is_resource u name ≡ true) × (is_quantity u quantity ≡ true))
  checked_resource-Returns name quantity = λ e h. elim (Bool-cases (is_resource u name)) [
    | inl good ↦ elim (Bool-cases (is_quantity u quantity)) [
      | inl fine ↦
          (ok-inj e (name, quantity) (sym h ∙ accepted name quantity good fine), good, fine)
      | inr bad ↦ absurd (ground arith)
    ]
    | inr bad ↦ absurd (ground arith)
  ]

  IsNormal-cons :
      (name raw : String) (values rest : Dict String)
      → is_resource u name ≡ true
      → is_quantity u (strip u raw) ≡ true
      → IsNormal values rest
      → IsNormal ((name, raw) ∷ values) ((name, strip u raw) ∷ rest)
  unfolding IsNormal validate_resources
  IsNormal-cons name raw values rest good fine normal = (
    (
      refl,
      refl,
      is_resource-IsResourceName name good,
      is_quantity-IsResourceQuantity (strip u raw) fine,
      normal.0,
    ),
    rw (strip_idem raw, accepted name (strip u raw) good fine, normal.1) refl,
  )

  -- When validate_resources returns a dict, it has the names of the request in order with their
  -- quantities stripped, every name has at most 253 characters and every quantity at most 64,
  -- each is matched by the regular expression of the source from its first to its last
  -- character, and validating the dict again returns it unchanged.
  pub validate_resources-IsNormal :
      (values d : Dict String)
      → validate_resources u values ≡ ok d
      → AreResources values d × (validate_resources u d ≡ ok d)
  unfolding validate_resources IsNormal
  validate_resources-IsNormal [] = ok-Returns (IsNormal []) [] (tt, refl)
  validate_resources-IsNormal ((name, raw) ∷ values) =
      bind-Returns _ _ (checked_resource-Returns name (strip u raw)) (λ first good.
        bind-Returns _ _ (validate_resources-IsNormal values) (λ rest normal.
          ok-Returns (IsNormal ((name, raw) ∷ values)) (first ∷ rest) (
            subst (λ (e : String × String). IsNormal ((name, raw) ∷ values) (e ∷ rest)) (sym good.0)
              (IsNormal-cons name raw values rest good.1 good.2 normal))))
