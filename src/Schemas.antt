-- ===== src/Schemas.antt =====
-- app/schemas.py: the constraints and validators of the requests. An error is the text of a ValueError.
pub mod Regex
pub mod Patterns
pub mod Names
pub mod QuantityPattern
pub mod Quantities
pub mod Stable
mod Tests
use Prim.Native.String.{◌∷◌ as char, [] as blank, ◌++◌ as append, count}
use Prim.Native.Char.{code}
use kernexys.Prelude.{
  ℕ, String, Bool, true, false, not, ◌&&◌, ◌||◌, Option, none, some, List, [], ◌∷◌, Result, ok, err,
  ◌>>=◌, ◌==◌, leb, if◌then◌else◌,
}
use kernexys.Prelude.Dict.{Dict}
use kernexys.Settings.Variables.{Unicode, strip}
use Patterns.{
  matches_resource_name, matches_version_name, matches_kubernetes_name, matches_quantity,
  matches_digest,
}

-- StringConstraints(strip_whitespace=True, min_length=1, max_length=63, pattern=...); `trim` is pydantic's
abbrev pub constrained : (String → String) → (String → Bool) → String → Option String
constrained trim matches text =
    let value : String = trim text in
    if leb 1 (count value) && leb (count value) 63 && matches value then some value else none

unfoldable pub resource_name : (String → String) → String → Option String
unfolding matches_resource_name
resource_name trim text = constrained trim matches_resource_name text

unfoldable pub version_name : (String → String) → String → Option String
unfolding matches_version_name
version_name trim text = constrained trim matches_version_name text

module _ (u : Unicode) where
  -- any(character.isspace() for character in value)
  unfoldable pub any_space : String → Bool
  any_space blank = false
  any_space (char c s) = u.is_space (code c) || any_space s

  abbrev pub checked_image : String → Result String String
  checked_image value =
      if value == "" || any_space value
      then err "runtime_image must be a non-empty OCI image reference"
      else ok value

  unfoldable pub validate_runtime_image : String → Result String String
  unfolding any_space strip
  validate_runtime_image value = checked_image (strip u value)

  abbrev pub checked_digest : String → Result String (Option String)
  checked_digest value =
      if matches_digest value
      then ok (some value)
      else err "artifact_digest must be a sha256 digest"

  unfoldable pub validate_artifact_digest : Option String → Result String (Option String)
  unfolding matches_digest strip
  validate_artifact_digest none = ok none
  validate_artifact_digest (some value) = checked_digest (u.lower (strip u value))

  abbrev pub is_resource : String → Bool
  is_resource name = leb (count name) 253 && matches_kubernetes_name name

  abbrev pub is_quantity : String → Bool
  is_quantity quantity = leb (count quantity) 64 && matches_quantity u quantity

  -- the body of the loop of validate_resources
  abbrev pub checked_resource : String → String → Result String (String × String)
  checked_resource name quantity =
      if is_resource name
      then if is_quantity quantity
        then ok (name, quantity)
        else err (append "invalid Kubernetes resource quantity for " name)
      else err (append "invalid Kubernetes resource name: " name)

  -- The keys of a dict are distinct, so each assignment to `normalized` appends.
  unfoldable pub validate_resources : Dict String → Result String (Dict String)
  unfolding matches_kubernetes_name matches_quantity strip
  validate_resources [] = ok []
  validate_resources ((name, quantity) ∷ values) = do
    first ← checked_resource name (strip u quantity)
    rest ← validate_resources values
    ok (first ∷ rest)
