-- ===== src/Cli/Paths.antt =====
-- Two deployments do not share a path.
use mathlib.Core.List.{append_cancel_left}
use kernexys.Prelude.{
  ℕ, ◌/◌, ◌%◌, ◌≡◌, ◌≢◌, refl, ap, String, true, inl, inr, List, [], ◌∷◌, ◌++◌, arith, Bool-cases,
}
use kernexys.Cli.Quote.{is_safe, hex_digit, quote_bytes, encode, quote, codes, deployment_path}
use kernexys.Cli.Unquoted.{quote-inj}

-- no slash, and neither of the characters that end a path
abbrev pub IsSegment : List ℕ → Type 0
IsSegment [] = Unit {0}
IsSegment (b ∷ bs) = (b ≢ b'/') × (b ≢ b'?') × (b ≢ b'#') × IsSegment bs

safe-IsSegment : (b : ℕ) → is_safe b ≡ true → (b ≢ b'/') × (b ≢ b'?') × (b ≢ b'#')
unfolding is_safe
safe-IsSegment b h = ground arith

hex_digit-IsSegment : (n : ℕ) → (hex_digit n ≢ b'/') × (hex_digit n ≢ b'?') × (hex_digit n ≢ b'#')
unfolding hex_digit
hex_digit-IsSegment n = ground arith

quote_bytes-IsSegment : (bs : List ℕ) → IsSegment (quote_bytes bs)
unfolding quote_bytes
quote_bytes-IsSegment [] = tt
quote_bytes-IsSegment (b ∷ bs) =
    let rest = quote_bytes-IsSegment bs in
    elim (Bool-cases (is_safe b)) [
      | inl safe ↦ let s = safe-IsSegment b safe in rw safe (s.0, s.1, s.2, rest)
      | inr unsafe ↦
          let h = hex_digit-IsSegment (b / 16) in
          let k = hex_digit-IsSegment (b % 16) in
          rw unsafe (
            λ e. absurd (omega arith),
            λ e. absurd (omega arith),
            λ e. absurd (omega arith),
            (h.0, h.1, h.2, (k.0, k.1, k.2, rest)),
          )
    ]

-- the first slash splits a text in one way
split-inj :
    (xs xs' ys ys' : List ℕ)
    → IsSegment xs
    → IsSegment xs'
    → xs ++ b'/' ∷ ys ≡ xs' ++ b'/' ∷ ys'
    → (xs ≡ xs') × (ys ≡ ys')
split-inj [] [] ys ys' p q e = (refl, ground arith)
split-inj [] (x ∷ xs') ys ys' p q e = absurd (q.0 (ground arith))
split-inj (x ∷ xs) [] ys ys' p q e = absurd (p.0 (ground arith))
split-inj (x ∷ xs) (x' ∷ xs') ys ys' p q e =
    let head : x ≡ x' = ground arith in
    let rest = split-inj xs xs' ys ys' p.3 q.3 (ground arith) in
    (rw head (ap (λ (l : List ℕ). x' ∷ l) rest.0), rest.1)

-- Two deployments that the command line gives the same path have the same namespace and the
-- same name, whatever characters these have.
pub deployment_path-inj :
    (namespace name namespace' name' : String)
    → deployment_path namespace name ≡ deployment_path namespace' name'
    → (namespace ≡ namespace') × (name ≡ name')
unfolding deployment_path quote
deployment_path-inj namespace name namespace' name' e =
    let parts =
      split-inj (quote namespace) (quote namespace') (quote name) (quote name')
        (quote_bytes-IsSegment (encode namespace)) (quote_bytes-IsSegment (encode namespace'))
        (append_cancel_left (codes "/v1/deployments/") _ _ e) in
    (quote-inj namespace namespace' parts.0, quote-inj name name' parts.1)
