-- ===== src/Cli/Quote.antt =====
-- urllib.parse.quote(text, safe=""): the bytes of the text in UTF-8, those of letters, digits and _.-~ as
-- they are, every other one as % with two hexadecimal digits.
use Prim.Native.String.{◌∷◌ as char, [] as blank}
use Prim.Native.Char.{code}
use kernexys.Prelude.{
  ℕ, ◌+◌, ◌/◌, ◌%◌, String, Bool, ◌&&◌, ◌||◌, List, [], ◌∷◌, ◌++◌, ltb, leb, eqb, if◌then◌else◌,
}

-- the bytes of a character
unfoldable pub utf8 : ℕ → List ℕ
utf8 c =
    if ltb c 128
    then c ∷ []
    else if ltb c 2048
    then (192 + c / 64) ∷ (128 + c % 64) ∷ []
    else if ltb c 65536
    then (224 + c / 4096) ∷ (128 + c / 64 % 64) ∷ (128 + c % 64) ∷ []
    else (240 + c / 262144) ∷ (128 + c / 4096 % 64) ∷ (128 + c / 64 % 64) ∷ (128 + c % 64) ∷ []

-- text.encode("utf-8")
unfoldable pub encode : String → List ℕ
unfolding utf8
encode blank = []
encode (char c s) = utf8 (code c) ++ encode s

unfoldable pub is_safe : ℕ → Bool
is_safe b =
    (leb b'a' b && leb b b'z')
    || (leb b'A' b && leb b b'Z')
    || (leb b'0' b && leb b b'9')
    || eqb b b'_'
    || eqb b b'.'
    || eqb b b'-'
    || eqb b b'~'

-- 0 to 9 and A to F
unfoldable pub hex_digit : ℕ → ℕ
hex_digit n = if ltb n 10 then 48 + n else 55 + n

unfoldable pub quote_bytes : List ℕ → List ℕ
unfolding is_safe hex_digit
quote_bytes [] = []
quote_bytes (b ∷ bs) =
    let rest : List ℕ = quote_bytes bs in
    if is_safe b then b ∷ rest else b'%' ∷ hex_digit (b / 16) ∷ hex_digit (b % 16) ∷ rest

unfoldable pub quote : String → List ℕ
unfolding quote_bytes encode
quote s = quote_bytes (encode s)

-- the characters of a text
abbrev pub codes : String → List ℕ
codes blank = []
codes (char c s) = code c ∷ codes s

-- _deployment_path
unfoldable pub deployment_path : String → String → List ℕ
unfolding quote
deployment_path namespace name = codes "/v1/deployments/" ++ quote namespace ++ b'/' ∷ quote name
