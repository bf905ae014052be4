-- ===== src/Cli/Unquoted.antt =====
-- A quoted text determines the text: UTF-8 and the percent encoding are read back.
use Prim.Native.String.{◌∷◌ as char, [] as blank}
use Prim.Native.Char.{code, Char}
use text.Mathlib.TextEquality.{Char-path}
use kernexys.Prelude.{
  ℕ, ◌+◌, ◌-◌, ◌*◌, ◌/◌, ◌%◌, ◌≤◌, ◌<◌, ◌≡◌, refl, sym, ap, ◌∙◌, String, true, false, inl, inr,
  List, [], ◌∷◌, ◌++◌, ltb, eqb, if◌then◌else◌, length, length-append, arith, Bool-cases,
}
use kernexys.Cli.Quote.{utf8, encode, is_safe, hex_digit, quote_bytes, quote}

abbrev two : ℕ → List ℕ → ℕ × List ℕ
two a (b ∷ l) = ((a - 192) * 64 + (b - 128), l)
two a l = (0, l)

abbrev three : ℕ → List ℕ → ℕ × List ℕ
three a (b ∷ c ∷ l) = ((a - 224) * 4096 + (b - 128) * 64 + (c - 128), l)
three a l = (0, l)

abbrev four : ℕ → List ℕ → ℕ × List ℕ
four a (b ∷ c ∷ d ∷ l) = ((a - 240) * 262144 + (b - 128) * 4096 + (c - 128) * 64 + (d - 128), l)
four a l = (0, l)

-- the character that a list of bytes starts with, and the bytes after it
decoded : List ℕ → ℕ × List ℕ
decoded [] = (0, [])
decoded (a ∷ l) =
    if ltb a 128
    then (a, l)
    else if ltb a 224
    then two a l
    else if ltb a 240
    then three a l
    else four a l

pair : (n m : ℕ) (l : List ℕ) → n ≡ m → Path (ℕ × List ℕ) (n, l) (m, l)
pair n m l e = ap (λ (x : ℕ). (x, l)) e

decoded-one : (a : ℕ) (l : List ℕ) → a < 128 → decoded (a ∷ l) ≡ (a, l)
unfolding decoded
decoded-one a l h = rw small refl
  where
    small : ltb a 128 ≡ true
    small = ground arith

decoded-two : (a : ℕ) (l : List ℕ) → 128 ≤ a → a < 224 → decoded (a ∷ l) ≡ two a l
unfolding decoded
decoded-two a l p q =
    let large : ltb a 128 ≡ false = ground arith in
    let small : ltb a 224 ≡ true = ground arith in rw (large, small) refl

decoded-three : (a : ℕ) (l : List ℕ) → 224 ≤ a → a < 240 → decoded (a ∷ l) ≡ three a l
unfolding decoded
decoded-three a l p q =
    let large : ltb a 128 ≡ false = ground arith in
    let larger : ltb a 224 ≡ false = ground arith in
    let small : ltb a 240 ≡ true = ground arith in rw (large, larger, small) refl

decoded-four : (a : ℕ) (l : List ℕ) → 240 ≤ a → decoded (a ∷ l) ≡ four a l
unfolding decoded
decoded-four a l p =
    let large : ltb a 128 ≡ false = ground arith in
    let larger : ltb a 224 ≡ false = ground arith in
    let largest : ltb a 240 ≡ false = ground arith in rw (large, larger, largest) refl

decoded-utf8 : (n : ℕ) (l : List ℕ) → decoded (utf8 n ++ l) ≡ (n, l)
unfolding utf8
decoded-utf8 n l = elim (Bool-cases (ltb n 128)) [
  | inl one ↦ rw one (decoded-one n l (ground arith))
  | inr more ↦ elim (Bool-cases (ltb n 2048)) [
    | inl small ↦
        rw (more, small)
          (decoded-two (192 + n / 64) _ (ground arith) (ground arith) ∙ pair _ n l (omega arith))
    | inr large ↦ elim (Bool-cases (ltb n 65536)) [
      | inl medium ↦
          rw (more, large, medium)
            (decoded-three (224 + n / 4096) _ (ground arith) (ground arith)
              ∙ pair _ n l (omega arith))
      | inr huge ↦
          rw (more, large, huge)
            (decoded-four (240 + n / 262144) _ (ground arith) ∙ pair _ n l (omega arith))
    ]
  ]
]

utf8-inj : (n m : ℕ) (l l' : List ℕ) → utf8 n ++ l ≡ utf8 m ++ l' → (n ≡ m) × (l ≡ l')
utf8-inj n m l l' e =
    let same : Path (ℕ × List ℕ) (n, l) (m, l') =
      sym (decoded-utf8 n l) ∙ ap decoded e ∙ decoded-utf8 m l' in
    (ap (λ (x : ℕ × List ℕ). x.0) same, ap (λ (x : ℕ × List ℕ). x.1) same)

utf8-pos : (n : ℕ) → 0 < length (utf8 n)
unfolding utf8
utf8-pos n = ground arith

-- a character has bytes
utf8-ne-nil : (n : ℕ) (l : List ℕ) → utf8 n ++ l ≡ [] → ⊥
utf8-ne-nil n l e =
    let none_left : length (utf8 n ++ l) ≡ 0 = ap length e in
    absurd (omega (arith, utf8-pos n, length-append (utf8 n) l, none_left))

encode-inj : (s t : String) → encode s ≡ encode t → s ≡ t
unfolding encode
encode-inj blank blank e = refl
encode-inj blank (char c t) e = absurd (utf8-ne-nil (code c) (encode t) (sym e))
encode-inj (char c s) blank e = absurd (utf8-ne-nil (code c) (encode s) e)
encode-inj (char c s) (char d t) e =
    let parts = utf8-inj (code c) (code d) (encode s) (encode t) e in
    ap (λ (x : Char). char x s) (Char-path c d parts.0)
    ∙ ap (λ (u : String). char d u) (encode-inj s t parts.1)

unhex : ℕ → ℕ
unhex x = if ltb x 58 then x - 48 else x - 55

unhex-hex_digit : (n : ℕ) → unhex (hex_digit n) ≡ n
unfolding unhex hex_digit
unhex-hex_digit n = ground arith

safe_other : (b : ℕ) → is_safe b ≡ true → eqb b 37 ≡ false
unfolding is_safe
safe_other b h = ground arith

abbrev escape : List ℕ → ℕ × List ℕ
escape (h ∷ k ∷ l) = (unhex h * 16 + unhex k, l)
escape l = (0, l)

-- the byte that a quoted text starts with, and what stands after it
unquoted : List ℕ → ℕ × List ℕ
unquoted [] = (0, [])
unquoted (b ∷ l) = if eqb b 37 then escape l else (b, l)

unquoted-quote_bytes : (b : ℕ) (bs : List ℕ) → unquoted (quote_bytes (b ∷ bs)) ≡ (b, quote_bytes bs)
unfolding unquoted quote_bytes
unquoted-quote_bytes b bs = elim (Bool-cases (is_safe b)) [
  | inl safe ↦ rw (safe, safe_other b safe) refl
  | inr unsafe ↦ rw unsafe (
      pair _ b (quote_bytes bs) (omega (arith, unhex-hex_digit (b / 16), unhex-hex_digit (b % 16))))
]

quote_bytes-ne-nil : (b : ℕ) (bs : List ℕ) → quote_bytes (b ∷ bs) ≡ [] → ⊥
unfolding quote_bytes
quote_bytes-ne-nil b bs e = ground arith

quote_bytes-inj : (bs cs : List ℕ) → quote_bytes bs ≡ quote_bytes cs → bs ≡ cs
unfolding quote_bytes
quote_bytes-inj [] [] e = refl
quote_bytes-inj [] (c ∷ cs) e = absurd (quote_bytes-ne-nil c cs (sym e))
quote_bytes-inj (b ∷ bs) [] e = absurd (quote_bytes-ne-nil b bs e)
quote_bytes-inj (b ∷ bs) (c ∷ cs) e =
    let same : Path (ℕ × List ℕ) (b, quote_bytes bs) (c, quote_bytes cs) =
      sym (unquoted-quote_bytes b bs) ∙ ap unquoted e ∙ unquoted-quote_bytes c cs in
    ap (λ (x : ℕ). x ∷ bs) (ap (λ (x : ℕ × List ℕ). x.0) same)
    ∙ ap (λ (l : List ℕ). c ∷ l) (quote_bytes-inj bs cs (ap (λ (x : ℕ × List ℕ). x.1) same))

pub quote-inj : (s t : String) → quote s ≡ quote t → s ≡ t
unfolding quote
quote-inj s t e = encode-inj s t (quote_bytes-inj (encode s) (encode t) e)
