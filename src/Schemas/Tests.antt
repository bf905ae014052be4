-- ===== src/Schemas/Tests.antt =====
-- The theorem at a request, and texts that the patterns take or refuse.
use kernexys.Prelude.{
  String, true, false, none, some, [], ◌∷◌, ◌≡◌, refl, ok, err, eqb, leb, ◌&&◌, if◌then◌else◌,
}
use kernexys.Prelude.Dict.{Dict}
use kernexys.Settings.Variables.{Unicode}
use kernexys.Schemas.{
  validate_resources, validate_artifact_digest, validate_runtime_image, version_name,
}
use kernexys.Schemas.Patterns.{matches_quantity, matches_kubernetes_name, matches_resource_name}
use kernexys.Schemas.Stable.{AreResources, validate_resources-IsNormal}

-- ASCII, and the digit one of Devanagari
abbrev unicode : Unicode
unicode = record {
  is_space = λ c. leb 9 c && leb c 32;
  decimal = λ c. if eqb c 2407 then some 1 else none;
  lower = λ s. s;
  upper = λ s. s;
}

abbrev requested : Dict String
requested = ("cpu", " 250m ") ∷ ("nvidia.com/gpu", "1") ∷ []

abbrev normal : Dict String
normal = ("cpu", "250m") ∷ ("nvidia.com/gpu", "1") ∷ []

normalized : validate_resources unicode requested ≡ ok normal
unfolding validate_resources
normalized = refl

validate_resources-IsNormal_example :
    AreResources unicode requested normal × (validate_resources unicode normal ≡ ok normal)
validate_resources-IsNormal_example =
    validate_resources-IsNormal unicode requested normal normalized

quantities :
    (matches_quantity unicode "1.5Gi" ≡ true)
    × (matches_quantity unicode "-.5e+3" ≡ true)
    × (matches_quantity unicode "2E" ≡ true)
    × (matches_quantity unicode "1Ki" ≡ true)
    × (matches_quantity unicode "1mi" ≡ false)
    × (matches_quantity unicode "." ≡ false)
    × (matches_quantity unicode "1e" ≡ false)
unfolding matches_quantity
quantities = (refl, refl, refl, refl, refl, refl, refl)

-- A digit of another script is a digit of the pattern.
other_digit : matches_quantity unicode "१" ≡ true
unfolding matches_quantity
other_digit = refl

names :
    (matches_kubernetes_name "example.com/fpga" ≡ true)
    × (matches_kubernetes_name "a/b/c" ≡ false)
    × (matches_kubernetes_name "cpu-" ≡ false)
    × (matches_resource_name "Web" ≡ false)
unfolding matches_kubernetes_name matches_resource_name
names = (refl, refl, refl, refl)

trimmed : version_name (λ s. s) "v1.2_rc-3" ≡ some "v1.2_rc-3"
unfolding version_name
trimmed = refl

bad_digest :
    validate_artifact_digest unicode (some "sha256:abc")
    ≡ err "artifact_digest must be a sha256 digest"
unfolding validate_artifact_digest
bad_digest = refl

bad_image :
    validate_runtime_image unicode "ghcr.io/x y"
    ≡ err "runtime_image must be a non-empty OCI image reference"
unfolding validate_runtime_image
bad_image = refl
