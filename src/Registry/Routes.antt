-- ===== src/Registry/Routes.antt =====
-- The registry routes of app/routes.py over the repository.
use Prim.Native.String.{◌++◌ as append}
use kernexys.Prelude.{ℕ, String, not, ◌&&◌, Option, none, some, if◌then◌else◌, Result, ok, err}
use kernexys.Json.{Json}
use kernexys.Errors.{ApiError}
use kernexys.Registry.{
  WriteResult, get_model as stored_model, put_model as write_model, get_version as stored_version,
  put_version as write_version, version_matches,
}
use kernexys.Registry.Session.{
  Database, DatabaseError, RegisteredModel, ModelVersion, Handler, Action, pure, raise, ◌>>=◌,
}

pub data Failure : Type 0 where
  api : ApiError → Failure
  database : DatabaseError → Failure
  -- an exception that no handler catches
  uncaught : Failure

abbrev pub lifted : {A : Type 0} → Result DatabaseError A → Result Failure A
lifted (ok a) = ok a
lifted (err e) = err (database e)

abbrev pub lift : {d : Database} {A : Type 0} → Action d A → Handler d Failure A
lift m others w = let (r, w') = m others w in (lifted r, w')

pub record ModelRead : Type 0 where
  pub name : String
  pub description : Option String
  pub created_at : ℕ
  pub updated_at : ℕ

pub record VersionCreate : Type 0 where
  pub runtime_image : String
  pub artifact_digest : Option String
  pub metadata : Json

pub record VersionRead : Type 0 where
  pub model_name : String
  pub version : String
  pub runtime_image : String
  pub artifact_digest : Option String
  pub metadata : Json
  pub created_at : ℕ

pub record Reply (A : Type 0) : Type 0 where
  pub status_code : ℕ
  pub value : A

-- ModelRead.model_validate(value)
unfoldable pub read_model : RegisteredModel → ModelRead
read_model m = record {
  name = m.name;
  description = m.description;
  created_at = m.created_at;
  updated_at = m.updated_at;
}

-- VersionRead.model_validate(value)
unfoldable pub read_version : ModelVersion → VersionRead
read_version v = record {
  model_name = v.model_name;
  version = v.version;
  runtime_image = v.runtime_image;
  artifact_digest = v.artifact_digest;
  metadata = v.metadata_json;
  created_at = v.created_at;
}

unfoldable pub model_not_found : String → ApiError
model_not_found name = record {
  status_code = 404;
  code = "model_not_found";
  message = append "Model '" (append name "' was not found.");
  details = none;
}

unfoldable pub version_not_found : String → String → ApiError
version_not_found name version = record {
  status_code = 404;
  code = "model_version_not_found";
  message = append "Model version '" (append name (append ":" (append version "' was not found.")));
  details = none;
}

unfoldable pub immutable_version : String → String → ApiError
immutable_version name version = record {
  status_code = 409;
  code = "immutable_model_version";
  message =
      append "Model version '"
        (append name (append ":" (append version "' already exists with different content.")));
  details = none;
}

module _ (d : Database) where
  unfoldable pub put_model : String → Option String → Handler d Failure (Reply ModelRead)
  unfolding write_model read_model
  put_model name description = do
    result ← lift (write_model d name description)
    pure (record {
      status_code = if result.created then 201 else 200;
      value = read_model result.value;
    })

  abbrev pub found_model_read : String → Option RegisteredModel → Handler d Failure ModelRead
  found_model_read name none = raise (api (model_not_found name))
  found_model_read name (some value) = pure (read_model value)

  unfoldable pub get_model : String → Handler d Failure ModelRead
  unfolding stored_model read_model
  get_model name = do value ← lift (stored_model d name); found_model_read name value

  -- the 409 check and the reply, once the repository has answered
  abbrev pub settle_version :
      String
      → String
      → VersionCreate
      → WriteResult ModelVersion
      → Handler d Failure (Reply VersionRead)
  settle_version name version body result =
      if not result.created
        && not
            (version_matches d result.value body.runtime_image body.artifact_digest body.metadata)
      then raise (api (immutable_version name version))
      else pure (record {
        status_code = if result.created then 201 else 200;
        value = read_version result.value;
      })

  abbrev pub of_model :
      String
      → String
      → VersionCreate
      → Option RegisteredModel
      → Handler d Failure (Reply VersionRead)
  of_model name version body none = raise (api (model_not_found name))
  of_model name version body (some m) = do
    result ←
        lift (write_version d name version body.runtime_image body.artifact_digest body.metadata)
    settle_version name version body result

  unfoldable pub put_version :
      String → String → VersionCreate → Handler d Failure (Reply VersionRead)
  unfolding stored_model write_version version_matches read_version
  put_version name version body = do
    model ← lift (stored_model d name)
    of_model name version body model

  abbrev pub found_version_read :
      String → String → Option ModelVersion → Handler d Failure VersionRead
  found_version_read name version none = raise (api (version_not_found name version))
  found_version_read name version (some value) = pure (read_version value)

  unfoldable pub get_version : String → String → Handler d Failure VersionRead
  unfolding stored_version read_version
  get_version name version = do
    value ← lift (stored_version d name version)
    found_version_read name version value
