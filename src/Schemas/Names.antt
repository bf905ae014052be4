-- ===== src/Schemas/Names.antt =====
-- The automaton of _RESOURCE_NAME_PATTERN accepts what the regular expression matches.
use Prim.Native.String.{◌∷◌ as char, [] as blank}
use Prim.Native.Char.{Char, code}
use mathlib.Core.Path.{subst}
use kernexys.Prelude.{
  ℕ, ◌≡◌, inl, inr, refl, ap, String, Bool, true, false, not, ◌&&◌, ◌||◌, [], ◌∷◌, leb, eqb, arith,
  Bool-cases, if◌then◌else◌,
}
use kernexys.Schemas.Regex.{Regex, optional, one_of, Reads, Matches, Star}
use kernexys.Schemas.Regex.Regex.{one, empty, sequence, star}
use kernexys.Schemas.Patterns.{
  Name, is_lower_alnum, name_step, name_accepted, after, matches_kubernetes_name,
}

-- [a-z0-9]
abbrev outer : ℕ → Bool
outer c = (leb b'a' c && leb c b'z') || (leb b'0' c && leb c b'9')

-- [-a-z0-9.]
abbrev inner : ℕ → Bool
inner c = outer c || one_of (b'-' ∷ b'.' ∷ []) c

-- [-a-z0-9.]*[a-z0-9]
abbrev ending : Regex
ending = sequence (star (one inner)) (one outer)

-- [a-z0-9](?:[-a-z0-9.]*[a-z0-9])?
abbrev part : Regex
part = sequence (one outer) (optional ending)

abbrev slash : Regex
slash = one (one_of (b'/' ∷ []))

-- (?:[a-z0-9](?:[-a-z0-9.]*[a-z0-9])?/)?[a-z0-9](?:[-a-z0-9.]*[a-z0-9])?
abbrev pub resource_name_pattern : Regex
resource_name_pattern = sequence (optional (sequence part slash)) part

-- what may follow a part: the second one, unless it was that
abbrev second_part : Bool → Regex
second_part true = empty
second_part false = optional (sequence slash part)

-- what the pattern still allows in a state
abbrev remaining : Name → Regex
remaining (Name.begun past) = sequence part (second_part past)
remaining (Name.closed past) = sequence (optional ending) (second_part past)
remaining (Name.inside past) = sequence ending (second_part past)
remaining Name.refused = one (one_of [])

-- an inner character before the end of a part
ending-char :
    (c : Char) (s t : String) → inner (code c) ≡ true → Reads ending s t → Reads ending (char c s) t
ending-char c s t h (m, inners, last) = (m, Star.again (c, refl, h) inners, last)

-- an outer character before the rest of a part
closed-char :
    (c : Char) (s t : String)
    → outer (code c) ≡ true
    → Reads (optional ending) s t
    → Reads ending (char c s) t
closed-char c s t h (inl same) = (char c s, Star.stop, (c, ap (λ (x : String). char c x) same, h))
closed-char c s t h (inr more) = ending-char c s t (ground arith) more

refused-absurd : {A : Type 0} (s t : String) → Reads (one (one_of [])) s t → A
refused-absurd s t (c, e, h) = absurd (ground arith)

-- a separator before the end of a part, or what the automaton refuses
inside_step :
    (past : Bool) (c : Char) (s t : String)
    → is_lower_alnum (code c) ≡ false
    → Reads
        (remaining
          (if eqb (code c) b'-' || eqb (code c) b'.' then Name.inside past else Name.refused))
        s
        t
    → Reads (remaining (Name.inside past)) (char c s) t
inside_step past c s t other = elim (Bool-cases (eqb (code c) b'-' || eqb (code c) b'.')) [
  | inl h ↦ rw h (λ (m, more, second). (m, ending-char c s m (ground arith) more, second))
  | inr h ↦ rw h (λ r. refused-absurd s t r)
]

slash_step :
    (past : Bool) (c : Char) (s t : String)
    → Reads
        (remaining (if eqb (code c) b'/' && not past then Name.begun true else Name.refused))
        s
        t
    → Reads (remaining (Name.closed past)) (char c s) t
slash_step true c s t = elim (Bool-cases (eqb (code c) b'/')) [
  | inl h ↦ rw h (λ r. refused-absurd s t r)
  | inr h ↦ rw h (λ r. refused-absurd s t r)
]
slash_step false c s t = elim (Bool-cases (eqb (code c) b'/')) [
  | inl h ↦ rw h (λ (m, more, same).
      (char c s, inl refl, inr (s, (c, refl, ground arith), subst (Reads part s) same more)))
  | inr h ↦ rw h (λ r. refused-absurd s t r)
]

closed_step :
    (past : Bool) (c : Char) (s t : String)
    → is_lower_alnum (code c) ≡ false
    → Reads
        (remaining (
          if eqb (code c) b'-' || eqb (code c) b'.'
          then Name.inside past
          else if eqb (code c) b'/' && not past
          then Name.begun true
          else Name.refused))
        s
        t
    → Reads (remaining (Name.closed past)) (char c s) t
closed_step past c s t other = elim (Bool-cases (eqb (code c) b'-' || eqb (code c) b'.')) [
  | inl h ↦ rw h (λ (m, more, second). (m, inr (ending-char c s m (ground arith) more), second))
  | inr h ↦ rw h (slash_step past c s t)
]

remaining_step :
    (q : Name) (c : Char) (s t : String)
    → Reads (remaining (name_step q (code c))) s t
    → Reads (remaining q) (char c s) t
remaining_step (Name.begun past) c s t = elim (Bool-cases (is_lower_alnum (code c))) [
  | inl h ↦ rw h (λ (m, more, second). (m, (s, (c, refl, h), more), second))
  | inr h ↦ rw h (λ r. refused-absurd s t r)
]
remaining_step (Name.closed past) c s t = elim (Bool-cases (is_lower_alnum (code c))) [
  | inl h ↦ rw h (λ (m, more, second). (m, inr (closed-char c s m h more), second))
  | inr h ↦ rw h (closed_step past c s t h)
]
remaining_step (Name.inside past) c s t = elim (Bool-cases (is_lower_alnum (code c))) [
  | inl h ↦ rw h (λ (m, more, second). (m, closed-char c s m h more, second))
  | inr h ↦ rw h (inside_step past c s t h)
]
remaining_step Name.refused c s t = λ r. refused-absurd s t r

remaining_end : (q : Name) → name_accepted q ≡ true → Matches (remaining q) ""
remaining_end (Name.closed true) h = ("", inl refl, refl)
remaining_end (Name.closed false) h = ("", inl refl, inl refl)
remaining_end (Name.begun past) h = absurd (ground arith)
remaining_end (Name.inside past) h = absurd (ground arith)
remaining_end Name.refused h = absurd (ground arith)

accepted-Matches :
    (q : Name) (s : String) → name_accepted (after name_step q s) ≡ true → Matches (remaining q) s
accepted-Matches q blank h = remaining_end q h
accepted-Matches q (char c s) h =
    remaining_step q c s "" (accepted-Matches (name_step q (code c)) s h)

-- a name in the order of the pattern: an optional prefix, then a part
as_pattern :
    (s : String) → Matches (remaining (Name.begun false)) s → Matches resource_name_pattern s
as_pattern s (m, first, inl same) = (s, inl refl, subst (Reads part s) same first)
as_pattern s (m, first, inr (n, past, second)) = (n, inr (m, first, past), second)

-- What matches_kubernetes_name accepts is matched by the pattern.
pub matches_kubernetes_name-Matches :
    (s : String) → matches_kubernetes_name s ≡ true → Matches resource_name_pattern s
unfolding matches_kubernetes_name
matches_kubernetes_name-Matches s h = as_pattern s (accepted-Matches (Name.begun false) s h)
