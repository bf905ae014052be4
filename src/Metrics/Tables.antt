-- ===== src/Metrics/Tables.antt =====
-- A Python dict with any kind of key, in order of insertion.
use kernexys.Prelude.{
  ℕ, ◌+◌, String, Bool, true, false, ◌&&◌, Option, none, some, List, [], ◌∷◌, ◌++◌, ◌==◌,
  if◌then◌else◌,
}

abbrev pub Table : Type 0 → Type 0 → Type 0
Table K V = List (K × V)

abbrev pub same_text : String → String → Bool
same_text a b = a == b

abbrev pub same_request : String × String × String → String × String × String → Bool
same_request (a, b, c) (x, y, z) = (a == x) && (b == y) && (c == z)

abbrev pub same_error : String × String → String × String → Bool
same_error (a, b) (x, y) = (a == x) && (b == y)

module _ {K V : Type 0} (same : K → K → Bool) where
  -- key in d
  abbrev pub contains : K → Table K V → Bool
  contains k [] = false
  contains k ((j, v) ∷ d) = if same j k then true else contains k d

  -- d[key] = value
  abbrev pub assign : K → V → Table K V → Table K V
  assign k v [] = (k, v) ∷ []
  assign k v ((j, w) ∷ d) = if same j k then (j, v) ∷ d else (j, w) ∷ assign k v d

  abbrev pub put_first : K × V → Option (Table K V) → Option (Table K V)
  put_first e none = none
  put_first e (some d) = some (e ∷ d)

  -- d[key] = f(d[key]), with none for a KeyError
  abbrev pub modify : (V → V) → K → Table K V → Option (Table K V)
  modify f k [] = none
  modify f k ((j, v) ∷ d) =
      if same j k then some ((j, f v) ∷ d) else put_first (j, v) (modify f k d)

-- d[key] += n
abbrev pub add_to : {K : Type 0} → (K → K → Bool) → K → ℕ → Table K ℕ → Option (Table K ℕ)
add_to same k n d = modify same (λ v. v + n) k d

-- d[key].append(value)
abbrev pub append_to :
    {K V : Type 0} → (K → K → Bool) → K → V → Table K (List V) → Option (Table K (List V))
append_to same k x d = modify same (λ l. l ++ x ∷ []) k d

-- if key not in d: d[key] = []
abbrev pub get_or_empty : {K V : Type 0} → (K → K → Bool) → K → Table K (List V) → Table K (List V)
get_or_empty same k d = if contains same k d then d else assign same k [] d
