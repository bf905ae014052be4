-- ===== src/Metrics/Order.antt =====
-- The three percentiles exist and are in order.
use kernexys.Prelude.{
  ℕ, zero, suc, ◌/◌, ◌≤◌, ◌<◌, ◌≡◌, refl, ap, ◌∙◌, some, List, [], ◌∷◌, leb, length, arith,
  Bool-cases, inl, inr, leb→le,
}
use kernexys.Metrics.Percentile.{
  insert, sorted, get_elem?, percentiles, Percentiles, scaled, double_95, double_99,
}
use kernexys.Metrics.Bounds.{indexes_in_order}

-- x is below all of the list
abbrev IsBelow : ℕ → List ℕ → Type 0
IsBelow x [] = Unit {0}
IsBelow x (y ∷ ys) = (x ≤ y) × IsBelow x ys

abbrev IsAscending : List ℕ → Type 0
IsAscending [] = Unit {0}
IsAscending (x ∷ xs) = IsBelow x xs × IsAscending xs

IsBelow-weaken : (x y : ℕ) (l : List ℕ) → x ≤ y → IsBelow y l → IsBelow x l
IsBelow-weaken x y [] h b = tt
IsBelow-weaken x y (z ∷ l) h b = (omega arith, IsBelow-weaken x y l h b.1)

insert-IsBelow : (w x : ℕ) (l : List ℕ) → w ≤ x → IsBelow w l → IsBelow w (insert x l)
unfolding insert
insert-IsBelow w x [] h b = (h, tt)
insert-IsBelow w x (y ∷ l) h b = elim (Bool-cases (leb x y)) [
  | inl le ↦ rw le (h, b)
  | inr gt ↦ rw gt (b.0, insert-IsBelow w x l h b.1)
]

insert-IsAscending : (x : ℕ) (l : List ℕ) → IsAscending l → IsAscending (insert x l)
unfolding insert
insert-IsAscending x [] a = (tt, tt)
insert-IsAscending x (y ∷ l) a = elim (Bool-cases (leb x y)) [
  | inl le ↦ rw le (((leb→le x y le), IsBelow-weaken x y l (leb→le x y le) a.0), a)
  | inr gt ↦ rw gt (insert-IsBelow y x l (ground arith) a.0, insert-IsAscending x l a.1)
]

sorted-IsAscending : (l : List ℕ) → IsAscending (sorted l)
unfolding sorted
sorted-IsAscending [] = tt
sorted-IsAscending (x ∷ l) = insert-IsAscending x (sorted l) (sorted-IsAscending l)

length-insert : (x : ℕ) (l : List ℕ) → length (insert x l) ≡ suc (length l)
unfolding insert
length-insert x [] = refl
length-insert x (y ∷ l) = ground (arith, length-insert x l)

length-sorted : (l : List ℕ) → length (sorted l) ≡ length l
unfolding sorted
length-sorted [] = refl
length-sorted (x ∷ l) = length-insert x (sorted l) ∙ ap suc (length-sorted l)

get_elem?-some : (l : List ℕ) (i : ℕ) → i < length l → (x : ℕ) × (get_elem? l i ≡ some x)
get_elem?-some [] i h = absurd (omega arith)
get_elem?-some (x ∷ l) zero h = (x, refl)
get_elem?-some (x ∷ l) (suc i) h = get_elem?-some l i (omega arith)

get_elem?-IsBelow : (w : ℕ) (l : List ℕ) (i x : ℕ) → IsBelow w l → get_elem? l i ≡ some x → w ≤ x
get_elem?-IsBelow w [] i x b e = absurd (cc)
get_elem?-IsBelow w (y ∷ l) zero x b e = ground arith
get_elem?-IsBelow w (y ∷ l) (suc i) x b e = get_elem?-IsBelow w l i x b.1 e

-- Elements further on are no smaller.
get_elem?-le :
    (l : List ℕ) (i j x y : ℕ)
    → IsAscending l
    → i ≤ j
    → get_elem? l i ≡ some x
    → get_elem? l j ≡ some y
    → x ≤ y
get_elem?-le [] i j x y a h p q = absurd (cc)
get_elem?-le (z ∷ l) zero zero x y a h p q = ground arith
get_elem?-le (z ∷ l) zero (suc j) x y a h p q =
    let below : z ≤ y = get_elem?-IsBelow z l j y a.0 q in ground arith
get_elem?-le (z ∷ l) (suc i) zero x y a h p q = absurd (omega arith)
get_elem?-le (z ∷ l) (suc i) (suc j) x y a h p q = get_elem?-le l i j x y a.1 (omega arith) p q

-- Of a list of durations that is not empty, the three percentiles exist and are in order, and
-- p50 is the element in the middle of the sorted list.
pub percentiles_ordered :
    (durations : List ℕ)
    → 0 < length durations
    → (p : Percentiles) × (percentiles durations ≡ some p)
      × (p.p50 ≤ p.p95)
      × (p.p95 ≤ p.p99)
      × (get_elem? (sorted durations) (length durations / 2) ≡ some p.p50)
unfolding percentiles
percentiles_ordered durations pos =
    let values : List ℕ = sorted durations in
    let n : ℕ = length durations in
    let order = indexes_in_order n pos in
    let long : length values ≡ n = length-sorted durations in
    let up : IsAscending values = sorted-IsAscending durations in
    let a = get_elem?-some values (n / 2) (omega arith) in
    let b = get_elem?-some values (scaled double_95 n) (omega arith) in
    let c = get_elem?-some values (scaled double_99 n) (omega arith) in
    (
      record { p50 = a.0; p95 = b.0; p99 = c.0 },
      rw (a.1, b.1, c.1) refl,
      get_elem?-le values _ _ a.0 b.0 up order.0 a.1 b.1,
      get_elem?-le values _ _ b.0 c.0 up order.1 b.1 c.1,
      a.1,
    )
