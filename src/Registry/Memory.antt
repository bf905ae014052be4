-- ===== src/Registry/Memory.antt =====
-- A database in memory that satisfies the interface, newest row first.
use kernexys.Prelude.{
  ℕ, String, ◌≡◌, refl, sym, Bool, true, false, ◌&&◌, Option, none, some, List, [], ◌∷◌, ◌==◌,
  if◌then◌else◌, length, arith, eq_iff, Bool-cases, inl, inr, ◌⊎◌, eq_refl,
}
use mathlib.Core.Option.{none-ne-some, some-injective}
use kernexys.Prelude.Dict.{Dict, lookup}
use kernexys.Json.{Json, null, str, bool, int, negative, real, arr, obj}
use kernexys.Registry.Session.{Database, Tables, RegisteredModel, ModelVersion, Keeps, Has, Holds}

pub record Memory : Type 0 where
  pub models : Dict RegisteredModel
  pub versions : List ModelVersion

abbrev is_version : String → String → ModelVersion → Bool
is_version name version v = (v.model_name == name) && (v.version == version)

abbrev find : String → String → List ModelVersion → Option ModelVersion
find name version [] = none
find name version (v ∷ vs) = if is_version name version v then some v else find name version vs

abbrev pub tables : Tables
tables = record {
  Rows = Memory;
  get = λ name db. lookup name db.models;
  select = λ name version db. find name version db.versions;
}

abbrev pub new_model : String → Option String → RegisteredModel
new_model name description = record {
  name = name;
  description = description;
  created_at = 0;
  updated_at = 0;
}

abbrev pub with_model : String → Option String → Memory → Memory
with_model name description db = record db {
  models = (name, new_model name description) ∷ db.models;
}

abbrev add_model_if : String → Option String → Memory → Option RegisteredModel → Option Memory
add_model_if name description db none = some (with_model name description db)
add_model_if name description db (some m) = none

abbrev set_description_if : String → Option String → Memory → Option RegisteredModel → Option Memory
set_description_if name description db none = none
set_description_if name description db (some m) = some (with_model name description db)

abbrev pub new_version : String → String → String → Option String → Json → ℕ → ModelVersion
new_version name version image digest metadata id = record {
  id = id;
  model_name = name;
  version = version;
  runtime_image = image;
  artifact_digest = digest;
  metadata_json = metadata;
  created_at = 0;
}

abbrev with_version : ModelVersion → Memory → Memory
with_version v db = record db { versions = v ∷ db.versions }

abbrev add_version_if :
    ModelVersion → Memory → Option RegisteredModel → Option ModelVersion → Option Memory
add_version_if v db none o = none
add_version_if v db (some m) none = some (with_version v db)
add_version_if v db (some m) (some w) = none

pub with_model-Keeps :
    (name : String) (description : Option String) (db : Memory)
    → Keeps tables db (with_model name description db)
with_model-Keeps name description db = record {
  models = λ j m h. elim (Bool-cases (name == j)) [ inl e ↦ rw e (_, refl) | inr e ↦ rw e (m, h) ];
  versions = λ n v x h. h;
}

find-with_version :
    (v : ModelVersion) (vs : List ModelVersion) (n l : String) (x : ModelVersion)
    → find v.model_name v.version vs ≡ none
    → find n l vs ≡ some x
    → find n l (v ∷ vs) ≡ some x
find-with_version v vs n l x absent h = ground (arith, eq_iff v.model_name n, eq_iff v.version l)

with_version-Keeps :
    (v : ModelVersion) (db : Memory)
    → find v.model_name v.version db.versions ≡ none
    → Keeps tables db (with_version v db)
with_version-Keeps v db absent = record {
  models = λ j m h. (m, h);
  versions = λ n l x h. find-with_version v db.versions n l x absent h;
}

-- What an insert or update promises of its new rows.
abbrev AddsModel : String → Option String → Memory → Memory → Type 0
AddsModel name description old new =
    Keeps tables old new
    × ((m : RegisteredModel) × (lookup name new.models ≡ some m) × Has m name description)

abbrev SetsDescription : String → Option String → Memory → Memory → Type 0
SetsDescription name description old new =
    Keeps tables old new
    × ((m : RegisteredModel)
        → lookup name old.models ≡ some m
        → (n : RegisteredModel) × (lookup name new.models ≡ some n) × (n.description ≡ description))

abbrev AddsVersion : ModelVersion → Memory → Memory → Type 0
AddsVersion v old new =
    Keeps tables old new
    × ((x : ModelVersion) × (find v.model_name v.version new.versions ≡ some x)
        × Holds x v.model_name v.version v.runtime_image v.artifact_digest v.metadata_json)

with_model-AddsModel :
    (name : String) (description : Option String) (db : Memory)
    → AddsModel name description db (with_model name description db)
with_model-AddsModel name description db = (
  with_model-Keeps name description db,
  (
    new_model name description,
    rw (eq_refl name) refl,
    record { name_is = refl; description_is = refl },
  ),
)

with_model-SetsDescription :
    (name : String) (description : Option String) (db : Memory)
    → SetsDescription name description db (with_model name description db)
with_model-SetsDescription name description db = (
  with_model-Keeps name description db,
  λ m h. (new_model name description, rw (eq_refl name) refl, refl),
)

with_version-AddsVersion :
    (v : ModelVersion) (db : Memory)
    → find v.model_name v.version db.versions ≡ none
    → AddsVersion v db (with_version v db)
with_version-AddsVersion v db absent = (
  with_version-Keeps v db absent,
  (
    v,
    rw (eq_refl v.model_name, eq_refl v.version) refl,
    record {
      model_name_is = refl;
      version_is = refl;
      runtime_image_is = refl;
      artifact_digest_is = refl;
      metadata_is = refl;
    },
  ),
)

pub add_model_if-AddsModel :
    (name : String) (description : Option String) (old new : Memory) (o : Option RegisteredModel)
    → add_model_if name description old o ≡ some new
    → AddsModel name description old new
add_model_if-AddsModel name description old new none h =
    rw (← some-injective (with_model name description old) new h)
      (with_model-AddsModel name description old)
add_model_if-AddsModel name description old new (some m) h = absurd (none-ne-some new h)

pub add_model_if-none :
    (name : String) (description : Option String) (old : Memory) (o : Option RegisteredModel)
    → add_model_if name description old o ≡ none
    → (m : RegisteredModel) × (o ≡ some m)
add_model_if-none name description old none h =
    absurd (none-ne-some (with_model name description old) (sym h))
add_model_if-none name description old (some m) h = (m, refl)

pub set_description_if-some :
    (name : String) (description : Option String) (old : Memory) (o : Option RegisteredModel)
    (m : RegisteredModel)
    → o ≡ some m
    → (new : Memory) × (set_description_if name description old o ≡ some new)
set_description_if-some name description old none m h = absurd (none-ne-some m h)
set_description_if-some name description old (some n) m h = (with_model name description old, refl)

pub set_description_if-SetsDescription :
    (name : String) (description : Option String) (old new : Memory) (o : Option RegisteredModel)
    → set_description_if name description old o ≡ some new
    → SetsDescription name description old new
set_description_if-SetsDescription name description old new none h = absurd (none-ne-some new h)
set_description_if-SetsDescription name description old new (some m) h =
    rw (← some-injective (with_model name description old) new h)
      (with_model-SetsDescription name description old)

pub add_version_if-AddsVersion :
    (v : ModelVersion) (old new : Memory) (m : Option RegisteredModel) (o : Option ModelVersion)
    → find v.model_name v.version old.versions ≡ o
    → add_version_if v old m o ≡ some new
    → AddsVersion v old new
add_version_if-AddsVersion v old new none o e h = absurd (none-ne-some new h)
add_version_if-AddsVersion v old new (some m) none e h =
    rw (← some-injective (with_version v old) new h) (with_version-AddsVersion v old e)
add_version_if-AddsVersion v old new (some m) (some w) e h = absurd (none-ne-some new h)

pub add_version_if-none :
    (v : ModelVersion) (old : Memory) (m : Option RegisteredModel) (o : Option ModelVersion)
    → add_version_if v old m o ≡ none
    → ((w : ModelVersion) × (o ≡ some w)) ⊎ (m ≡ none)
add_version_if-none v old none o h = inr refl
add_version_if-none v old (some m) none h = absurd (none-ne-some (with_version v old) (sym h))
add_version_if-none v old (some m) (some w) h = inl (w, refl)

-- Texts are compared; all else that the tests store is the same.
abbrev pub equal : Json → Json → Bool
equal (str a) (str b) = a == b
equal (str a) null = false
equal null (str b) = false
equal i j = true

pub equal_refl : (j : Json) → equal j j ≡ true
equal_refl (str s) = eq_refl s
equal_refl null = refl
equal_refl (bool b) = refl
equal_refl (int n) = refl
equal_refl (negative n) = refl
equal_refl (real t) = refl
equal_refl (arr items) = refl
equal_refl (obj fields) = refl

abbrev pub memory : Database
memory = record {
  tables = tables;
  add_model = λ name text db. add_model_if name text db (lookup name db.models);
  set_description = λ name text db. set_description_if name text db (lookup name db.models);
  add_version = λ name version image digest metadata db.
      add_version_if (new_version name version image digest metadata (length db.versions)) db
        (lookup name db.models) (find name version db.versions);
  equal = equal;
  equal_refl = equal_refl;
  add_model-some =
      λ name text old new. add_model_if-AddsModel name text old new (lookup name old.models);
  add_model-none = λ name text old. add_model_if-none name text old (lookup name old.models);
  set_description-some =
      λ name text old. set_description_if-some name text old (lookup name old.models);
  set_description-keeps = λ name text old new.
      set_description_if-SetsDescription name text old new (lookup name old.models);
  add_version-some = λ name version image digest metadata old new.
      add_version_if-AddsVersion
        (new_version name version image digest metadata (length old.versions)) old new
        (lookup name old.models) (find name version old.versions) refl;
  add_version-none = λ name version image digest metadata old.
      add_version_if-none (new_version name version image digest metadata (length old.versions)) old
        (lookup name old.models) (find name version old.versions);
}
