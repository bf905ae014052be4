-- ===== src/Json/Sample.antt =====
-- A codec for flat dicts that meets the interface: texts are quoted, each character behind a `\`.
use Prim.Native.Char.{code}
use Prim.Native.String.{[], ◌∷◌}
use kernexys.Prelude.{String, ◌≡◌, refl, ap, ◌∙◌, true, false, Option, none, some, eqb}
use kernexys.Json.{Json, Fields, end, field, str, obj, IsFlat, member, Codec}

pub quoted : String → String → String
quoted [] t = "\"" ∷ t
quoted (c ∷ s) t = "\\" ∷ c ∷ quoted s t

encode : Fields → String
unfolding quoted
encode end = "}"
encode (field k (str v) d) = "{" ∷ quoted k (quoted v (encode d))
encode (field k v d) = encode d

-- Where the reader is, with the text that it has read as a function of what follows.
pub data Mode : Type 0 where
  entry : Mode
  in_key key_char : (String → String) → Mode
  in_value value_char : String → (String → String) → Mode

abbrev add_entry : String → String → Option Fields → Option Fields
add_entry k v none = none
add_entry k v (some d) = some (field k (str v) d)

decode : Mode → String → Option Fields
decode m [] = none
decode entry (c ∷ s) = elim (eqb (code c) b'{') [
  | true ↦ decode (in_key (λ r. r)) s
  | false ↦ some end
]
decode (in_key f) (c ∷ s) = elim (eqb (code c) b'\\') [
  | true ↦ decode (key_char f) s
  | false ↦ decode (in_value (f []) (λ r. r)) s
]
decode (key_char f) (c ∷ s) = decode (in_key (λ r. f (c ∷ r))) s
decode (in_value k f) (c ∷ s) = elim (eqb (code c) b'\\') [
  | true ↦ decode (value_char k f) s
  | false ↦ add_entry k (f []) (decode entry s)
]
decode (value_char k f) (c ∷ s) = decode (in_value k (λ r. f (c ∷ r))) s

decode-key :
    (k : String) (f : String → String) (t : String)
    → decode (in_key f) (quoted k t) ≡ decode (in_value (f k) (λ r. r)) t
unfolding decode quoted
decode-key [] f t = refl
decode-key (c ∷ k) f t = decode-key k (λ r. f (c ∷ r)) t

decode-value :
    (v k : String) (f : String → String) (t : String)
    → decode (in_value k f) (quoted v t) ≡ add_entry k (f v) (decode entry t)
unfolding decode quoted
decode-value [] k f t = refl
decode-value (c ∷ v) k f t = decode-value v k (λ r. f (c ∷ r)) t

decode-encode : (d : Fields) → IsFlat d → decode entry (encode d) ≡ some d
unfolding decode encode
decode-encode end h = refl
decode-encode (field k (str v) d) h =
    decode-key k (λ r. r) (quoted v (encode d))
    ∙ decode-value v k (λ r. r) (encode d)
    ∙ ap (add_entry k v) (decode-encode d h)
decode-encode (field k v d) h = absurd h

abbrev loaded : Option Fields → Option Json
loaded none = none
loaded (some d) = some (obj d)

pub dumps : Json → String
unfolding encode
dumps (obj d) = encode d
dumps v = ""

pub loads : String → Option Json
unfolding decode
loads t = loaded (decode entry t)

pub loads-dumps :
    (d : Fields)
    → IsFlat d
    → (c : Fields) × (loads (dumps (obj d)) ≡ some (obj c))
      × ((k : String) → member k c ≡ member k d)
unfolding loads dumps
loads-dumps d h = (d, ap loaded (decode-encode d h), λ k. refl)

unfoldable pub sample : Codec
unfolding loads dumps
sample = record { dumps = dumps; loads = loads; loads-dumps = loads-dumps }
