-- ===== src/Metrics/Laws.antt =====
-- Tables whose keys are compared by an equality: a key that is put in first is found, and a record under
-- one key changes the series of that key only.
use mathlib.Core.Logic.{◌↔◌}
use kernexys.Prelude.{
  ℕ, ◌+◌, ◌≡◌, refl, ◌∙◌, String, Bool, true, false, Option, some, List, [], ◌∷◌, ◌++◌,
  if◌then◌else◌, length, length-append, arith, eq_iff, Bool-cases, inl, inr,
}
use kernexys.Metrics.Tables.{
  Table, same_request, same_text, same_error, contains, assign, modify, add_to, append_to,
  get_or_empty,
}

-- A call that does not raise.
abbrev pub Found {ℓ} : {A : Type ℓ} → Option A → Type ℓ
Found {A = A} o = (a : A) × (o ≡ some a)

pub same_request_iff : (a b : String × String × String) → (same_request a b ≡ true) ↔ (a ≡ b)
same_request_iff (a, b, c) (x, y, z) = ground (arith, eq_iff a x, eq_iff b y, eq_iff c z)

pub same_error_iff : (a b : String × String) → (same_error a b ≡ true) ↔ (a ≡ b)
same_error_iff (a, b) (x, y) = ground (arith, eq_iff a x, eq_iff b y)

pub same_text_iff : (a b : String) → (same_text a b ≡ true) ↔ (a ≡ b)
same_text_iff a b = eq_iff a b

-- the counts that a table of durations stands for
abbrev pub lengths : {K V : Type 0} → Table K (List V) → Table K ℕ
lengths [] = []
lengths ((k, l) ∷ d) = (k, length l) ∷ lengths d

-- the series of a key, empty for one that is not there
abbrev pub series : {K V : Type 0} → (K → K → Bool) → K → Table K (List V) → List V
series same k [] = []
series same k ((j, l) ∷ d) = if same j k then l else series same k d

module _ {K : Type 0} (same : K → K → Bool)
    (same_iff : (a b : K) → (same a b ≡ true) ↔ (a ≡ b)) where
  modify-Found :
      {V : Type 0} (f : V → V) (k : K) (d : Table K V)
      → contains same k d ≡ true
      → Found (modify same f k d)
  modify-Found f k [] h = absurd (cc)
  modify-Found f k ((j, v) ∷ d) h = elim (Bool-cases (same j k)) [
    | inl eq ↦ (((j, f v) ∷ d), rw eq refl)
    | inr ne ↦
        let rest = modify-Found f k d (ground arith) in (((j, v) ∷ rest.0), rw (ne, rest.1) refl)
  ]

  contains-assign :
      {V : Type 0} (k : K) (v : V) (d : Table K V) → contains same k (assign same k v d) ≡ true
  contains-assign k v [] = ground (arith, same_iff k k)
  contains-assign k v ((j, w) ∷ d) = ground (arith, contains-assign k v d)

  -- if key not in d: d[key] = v
  contains-ensured :
      {V : Type 0} (k : K) (v : V) (d : Table K V)
      → contains same k (if contains same k d then d else assign same k v d) ≡ true
  contains-ensured k v d = elim (Bool-cases (contains same k d)) [
    | inl known ↦ rw known known
    | inr new ↦ rw new (contains-assign k v d)
  ]

  pub add_to-Found :
      (k : K) (n : ℕ) (d : Table K ℕ)
      → Found (add_to same k n (if contains same k d then d else assign same k 0 d))
  add_to-Found k n d = modify-Found (λ v. v + n) k _ (contains-ensured k 0 d)

  pub append_to-Found :
      {V : Type 0} (k : K) (x : V) (d : Table K (List V))
      → Found (append_to same k x (get_or_empty same k d))
  append_to-Found k x d = modify-Found (λ l. l ++ x ∷ []) k _ (contains-ensured k [] d)

  contains-lengths :
      {V : Type 0} (k : K) (d : Table K (List V)) → contains same k (lengths d) ≡ contains same k d
  contains-lengths k [] = refl
  contains-lengths k ((j, l) ∷ d) = ground (arith, contains-lengths k d)

  assign-lengths :
      {V : Type 0} (k : K) (d : Table K (List V))
      → assign same k 0 (lengths d) ≡ lengths (assign same k [] d)
  assign-lengths k [] = refl
  assign-lengths k ((j, l) ∷ d) = ground (arith, assign-lengths k d)

  pub ensured-lengths :
      {V : Type 0} (k : K) (d : Table K (List V))
      → (if contains same k (lengths d) then lengths d else assign same k 0 (lengths d))
        ≡ lengths (get_or_empty same k d)
  ensured-lengths k d = elim (Bool-cases (contains same k d)) [
    | inl known ↦ rw (contains-lengths k d, known) refl
    | inr new ↦ rw (contains-lengths k d, new) (assign-lengths k d)
  ]

  pub ensured-empty :
      {V : Type 0} (k : K) (d : Table K (List V))
      → (if contains same k (lengths d) then d else assign same k [] d) ≡ get_or_empty same k d
  ensured-empty k d = rw (contains-lengths k d) refl

  module _ {V : Type 0} (k : K) (x : V) where
    -- d' is d with x at the end of the series of k
    abbrev IsAppended : Table K (List V) → Table K (List V) → Type 0
    IsAppended d d' =
        (append_to same k x d ≡ some d')
        × (add_to same k 1 (lengths d) ≡ some (lengths d'))
        × ((i : K)
            → series same i d' ≡ (if same k i then series same i d ++ x ∷ [] else series same i d))

    known-IsAppended :
        (d : Table K (List V))
        → contains same k d ≡ true
        → (d' : Table K (List V)) × IsAppended d d'
    known-IsAppended [] h = absurd (cc)
    known-IsAppended ((j, l) ∷ d) h = elim (Bool-cases (same j k)) [
      | inl eq ↦
          let found : j ≡ k = (same_iff j k).0 eq in
          (
            ((j, l ++ x ∷ []) ∷ d),
            (rw eq refl, rw (eq, length-append l (x ∷ [])) refl, λ i. rw found (ground arith)),
          )
      | inr ne ↦
          let rest = known-IsAppended d (ground arith) in
          (
            ((j, l) ∷ rest.0),
            (
              rw (ne, rest.1.0) refl,
              rw (ne, rest.1.1) refl,
              λ i. ground (arith, rest.1.2 i, same_iff j k, same_iff j i, same_iff k i),
            ),
          )
    ]

    assign-series :
        (i : K) (d : Table K (List V))
        → contains same k d ≡ false
        → series same i (assign same k [] d) ≡ series same i d
    assign-series i [] h = ground arith
    assign-series i ((j, l) ∷ d) h = ground (arith, assign-series i d)

    -- what the collector does to its counts and to its durations
    pub appended :
        (d : Table K (List V))
        → (d' : Table K (List V)) × (append_to same k x (get_or_empty same k d) ≡ some d')
          × (add_to same k 1 (lengths (get_or_empty same k d)) ≡ some (lengths d'))
          × ((i : K)
              → series same i d'
                ≡ (if same k i then series same i d ++ x ∷ [] else series same i d))
    appended d = elim (Bool-cases (contains same k d)) [
      | inl known ↦ rw known (let r = known-IsAppended d known in (r.0, r.1.0, r.1.1, r.1.2))
      | inr new ↦ rw new (
          let r = known-IsAppended (assign same k [] d) (contains-assign k [] d) in
          (r.0, r.1.0, r.1.1, λ i. r.1.2 i ∙ rw (assign-series i d new) refl))
    ]
