-- ===== src/Registry/Tests.antt =====
-- The theorems at a store with one model and one version, while others register another model.
use kernexys.Prelude.{
  ◌≡◌, refl, Bool, true, false, none, some, List, [], ◌∷◌, ok, err, ◌⊎◌, if◌then◌else◌,
}
use kernexys.Json.{str}
use kernexys.Registry.{WriteResult, put_model as write_model}
use kernexys.Registry.Session.{RegisteredModel, ModelVersion, Keeps, Holds, Others, World}
use kernexys.Registry.Memory.{
  memory, tables, Memory, with_model, new_version, new_model, with_model-Keeps,
}
use kernexys.Registry.Versions.{IsFair}
use kernexys.Registry.Immutable.{IsRequested, put_version_replies, put_version-put_version}
use kernexys.Registry.Routes.{
  put_version, get_version, VersionCreate, VersionRead, Reply, read_version, api, immutable_version,
}
use kernexys.Registry.History.{Write, model, version, serve, get_version-serve}
use kernexys.Registry.Models.{LeavesModel, IsWritten, put_model-IsWritten}

-- at each point of time another session registers or updates "other"
abbrev others : Others memory
others time rows = with_model "other" (some "by another session") rows

others-IsFair : IsFair memory others
others-IsFair time rows = with_model-Keeps "other" (some "by another session") rows

abbrev first_version : ModelVersion
first_version = new_version "iris" "v1" "image:1" none (str "meta") 0

abbrev stored : Memory
stored = record { models = ("iris", new_model "iris" none) ∷ []; versions = first_version ∷ [] }

abbrev start : World memory
start = record { rows = stored; time = 0 }

abbrev body : VersionCreate
body = record {
  runtime_image = "image:2";
  artifact_digest = some "sha256:0";
  metadata = str "more";
}

put_version_replies_example :
    (v : ModelVersion) × (created : Bool) × (w' : World memory) × (((IsRequested memory "iris" "v2"
          body v)
        × (put_version memory "iris" "v2" body others start ≡ (
          ok (record { status_code = if created then 201 else 200; value = read_version v }),
          w',
        )))
      ⊎ ((¬ IsRequested memory "iris" "v2" body v)
          × (put_version memory "iris" "v2" body others start
              ≡ (err (api (immutable_version "iris" "v2")), w'))))
    × (tables.select "iris" "v2" w'.rows ≡ some v)
    × Keeps tables stored w'.rows
    × (created ≡ true → Holds v "iris" "v2" body.runtime_image body.artifact_digest body.metadata)
    × ((x : ModelVersion) → tables.select "iris" "v2" stored ≡ some x → (v ≡ x) × (created ≡ false))
put_version_replies_example =
    put_version_replies memory "iris" "v2" body others others-IsFair start (new_model "iris" none)
      refl

abbrev reply : Reply VersionRead
reply = record {
  status_code = 201;
  value = record {
    model_name = "iris";
    version = "v2";
    runtime_image = "image:2";
    artifact_digest = some "sha256:0";
    metadata = str "more";
    created_at = 0;
  };
}

put_version_created : (put_version memory "iris" "v2" body others start).0 ≡ ok reply
unfolding put_version
put_version_created = refl

put_version-put_version_example :
    (put_version memory "iris" "v2" body others
      (put_version memory "iris" "v2" body others start).1).0
    ≡ ok (record { status_code = 200; value = reply.value })
put_version-put_version_example =
    put_version-put_version memory "iris" "v2" body others others-IsFair start
      (new_model "iris" none) refl reply put_version_created

-- a new description, and an attempt to overwrite v1
abbrev writes : List Write
writes = model "iris" (some "new") ∷ version "iris" "v1" body ∷ []

get_version-serve_example :
    (get_version memory "iris" "v1" others (serve memory others writes start)).0
    ≡ ok (read_version first_version)
get_version-serve_example =
    get_version-serve memory others others-IsFair "iris" "v1" first_version writes start refl

others-LeavesModel : LeavesModel memory others "iris" (some "new")
others-LeavesModel time rows m h = h

put_model-IsWritten_example :
    (r : WriteResult RegisteredModel) × (w' : World memory) × (write_model memory "iris"
        (some "new")
        others
        start
      ≡ (ok r, w'))
    × IsWritten memory others "iris" (some "new") stored r w'
put_model-IsWritten_example =
    put_model-IsWritten memory others "iris" (some "new") others-LeavesModel start
