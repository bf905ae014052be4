-- ===== src/Registry.antt =====
-- app/repository.py and app/db_models.py: the model registry. The SQLAlchemy session and the
-- database behind it are an interface; a repository method is an action over the committed rows.
pub mod Session
pub mod Versions
pub mod Routes
pub mod Immutable
pub mod History
pub mod Models
pub mod Memory
mod Tests
use kernexys.Prelude.{
  ℕ, String, Bool, true, false, ◌&&◌, Option, none, some, ◌==◌, if◌then◌else◌, Result, ok, err,
}
use kernexys.Json.{Json}
use Session.{
  Database, RegisteredModel, ModelVersion, Action, pure, raise, integrity_error, invalid_request,
  stale_data, query, commit, ◌>>=◌,
}

pub record WriteResult (A : Type 0) : Type 0 where
  pub value : A
  pub created : Bool

-- == on str | None
unfoldable pub same_text : Option String → Option String → Bool
same_text none none = true
same_text (some a) (some b) = a == b
same_text none (some b) = false
same_text (some a) none = false

module _ (d : Database) where
  -- session.refresh, which raises when the row is gone
  abbrev pub refreshed : {A : Type 0} → Option A → Action d A
  refreshed none = raise invalid_request
  refreshed (some a) = pure a

  unfoldable pub get_model : String → Action d (Option RegisteredModel)
  get_model name = query d (d.tables.get name)

  -- the row is there: its description is brought up to date
  unfoldable pub update_description :
      String → Option String → RegisteredModel → Action d (WriteResult RegisteredModel)
  unfolding same_text
  update_description name description model =
      if same_text model.description description
      then pure (record { value = model; created = false })
      else (do
        written ← commit d (d.set_description name description)
        if written
            then (do
              row ← query d (d.tables.get name)
              value ← refreshed row
              pure (record { value = value; created = false }))
            else raise stale_data)

  -- session.get after the rollback
  abbrev pub retry_model :
      String → Option String → Option RegisteredModel → Action d (WriteResult RegisteredModel)
  retry_model name description none = raise integrity_error
  retry_model name description (some model) = update_description name description model

  abbrev pub found_model :
      String → Option String → Option RegisteredModel → Action d (WriteResult RegisteredModel)
  found_model name description (some model) = update_description name description model
  found_model name description none = do
    written ← commit d (d.add_model name description)
    if written
        then (do
          row ← query d (d.tables.get name)
          value ← refreshed row
          pure (record { value = value; created = true }))
        else (do row ← query d (d.tables.get name); retry_model name description row)

  unfoldable pub put_model : String → Option String → Action d (WriteResult RegisteredModel)
  unfolding update_description
  put_model name description = do
    row ← query d (d.tables.get name)
    found_model name description row

  -- _get_version
  unfoldable pub get_version : String → String → Action d (Option ModelVersion)
  get_version model_name version = query d (d.tables.select model_name version)

  -- _get_version after the rollback
  abbrev pub retry_version : Option ModelVersion → Action d (WriteResult ModelVersion)
  retry_version none = raise integrity_error
  retry_version (some existing) = pure (record { value = existing; created = false })

  abbrev pub found_version :
      String
      → String
      → String
      → Option String
      → Json
      → Option ModelVersion
      → Action d (WriteResult ModelVersion)
  found_version model_name version runtime_image artifact_digest metadata (some existing) =
      pure (record { value = existing; created = false })
  found_version model_name version runtime_image artifact_digest metadata none = do
    written ← commit d (d.add_version model_name version runtime_image artifact_digest metadata)
    if written
        then (do
          row ← query d (d.tables.select model_name version)
          value ← refreshed row
          pure (record { value = value; created = true }))
        else (do row ← query d (d.tables.select model_name version); retry_version row)

  unfoldable pub put_version :
      String → String → String → Option String → Json → Action d (WriteResult ModelVersion)
  put_version model_name version runtime_image artifact_digest metadata = do
    row ← query d (d.tables.select model_name version)
    found_version model_name version runtime_image artifact_digest metadata row

  unfoldable pub version_matches : ModelVersion → String → Option String → Json → Bool
  unfolding same_text
  version_matches value runtime_image artifact_digest metadata =
      (value.runtime_image == runtime_image)
      && same_text value.artifact_digest artifact_digest
      && d.equal value.metadata_json metadata
