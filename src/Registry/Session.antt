-- ===== src/Registry/Session.antt =====
-- app/db_models.py, and the SQLAlchemy session as the repository uses it: the rows that are
-- committed, the statements on them, and what other sessions commit in between.
use kernexys.Prelude.{
  ℕ, ◌+◌, String, ◌≡◌, Bool, true, false, Option, none, some, Result, ok, err, ◌⊎◌,
}
use kernexys.Json.{Json}

pub record RegisteredModel : Type 0 where
  pub name : String
  pub description : Option String
  pub created_at : ℕ
  pub updated_at : ℕ

pub record ModelVersion : Type 0 where
  pub id : ℕ
  pub model_name : String
  pub version : String
  pub runtime_image : String
  pub artifact_digest : Option String
  pub metadata_json : Json
  pub created_at : ℕ

-- The exceptions of SQLAlchemy that the methods can meet besides an outage: an IntegrityError, a
-- refresh of a row that is gone, an update of one.
pub data DatabaseError : Type 0 where
  integrity_error invalid_request stale_data : DatabaseError

pub record Has (m : RegisteredModel) (name : String) (description : Option String) : Type 0 where
  pub name_is : m.name ≡ name
  pub description_is : m.description ≡ description

pub record Holds (v : ModelVersion) (model_name version runtime_image : String)
    (artifact_digest : Option String) (metadata : Json) : Type 0 where
  pub model_name_is : v.model_name ≡ model_name
  pub version_is : v.version ≡ version
  pub runtime_image_is : v.runtime_image ≡ runtime_image
  pub artifact_digest_is : v.artifact_digest ≡ artifact_digest
  pub metadata_is : v.metadata_json ≡ metadata

pub record Tables : Type 1 where
  pub Rows : Type 0
  -- session.get(RegisteredModel, name)
  pub get : String → Rows → Option RegisteredModel
  -- the select of _get_version
  pub select : String → String → Rows → Option ModelVersion

-- Every model is still there, and every version as it was.
pub record Keeps (t : Tables) (old new : t.Rows) : Type 0 where
  pub models :
      (name : String) (m : RegisteredModel)
      → t.get name old ≡ some m
      → (n : RegisteredModel) × (t.get name new ≡ some n)
  pub versions :
      (name version : String) (v : ModelVersion)
      → t.select name version old ≡ some v
      → t.select name version new ≡ some v

-- Each insert is committed at once; `none` is an IntegrityError, of the unique constraint or the
-- foreign key.
pub record Database : Type 1 where
  pub tables : Tables
  open tables use *
  pub add_model : String → Option String → Rows → Option Rows
  pub set_description : String → Option String → Rows → Option Rows
  pub add_version : String → String → String → Option String → Json → Rows → Option Rows
  -- == of two dicts that json.loads returns
  pub equal : Json → Json → Bool
  pub equal_refl : (j : Json) → equal j j ≡ true
  pub add_model-some :
      (name : String) (description : Option String) (old new : Rows)
      → add_model name description old ≡ some new
      → Keeps tables old new
        × ((m : RegisteredModel) × (get name new ≡ some m) × Has m name description)
  pub add_model-none :
      (name : String) (description : Option String) (old : Rows)
      → add_model name description old ≡ none
      → (m : RegisteredModel) × (get name old ≡ some m)
  pub set_description-some :
      (name : String) (description : Option String) (old : Rows) (m : RegisteredModel)
      → get name old ≡ some m
      → (new : Rows) × (set_description name description old ≡ some new)
  pub set_description-keeps :
      (name : String) (description : Option String) (old new : Rows)
      → set_description name description old ≡ some new
      → Keeps tables old new
        × ((m : RegisteredModel)
            → get name old ≡ some m
            → (n : RegisteredModel) × (get name new ≡ some n) × (n.description ≡ description))
  pub add_version-some :
      (name version image : String) (digest : Option String) (metadata : Json) (old new : Rows)
      → add_version name version image digest metadata old ≡ some new
      → Keeps tables old new
        × ((v : ModelVersion) × (select name version new ≡ some v)
            × Holds v name version image digest metadata)
  pub add_version-none :
      (name version image : String) (digest : Option String) (metadata : Json) (old : Rows)
      → add_version name version image digest metadata old ≡ none
      → ((v : ModelVersion) × (select name version old ≡ some v)) ⊎ (get name old ≡ none)

-- Between two statements of a session the others commit: `others` says what, at each point of time.
pub record World (d : Database) : Type 0 where
  pub rows : d.tables.Rows
  pub time : ℕ

abbrev pub Others : Database → Type 0
Others d = ℕ → d.tables.Rows → d.tables.Rows

-- What runs on the session: its end is a result or an exception of `E`.
abbrev pub Handler : Database → Type 0 → Type 0 → Type 0
Handler d E A = Others d → World d → Result E A × World d

abbrev pub Action : Database → Type 0 → Type 0
Action d A = Handler d DatabaseError A

module _ {d : Database} {E A : Type 0} where
  abbrev pub pure : A → Handler d E A
  pure a others w = (ok a, w)

  abbrev pub raise : E → Handler d E A
  raise e others w = (err e, w)

abbrev pub seen : (d : Database) → Others d → World d → d.tables.Rows
seen d others w = others w.time w.rows

module _ (d : Database) where
  abbrev pub query : {A : Type 0} → (d.tables.Rows → A) → Action d A
  query f others w =
      (ok (f (seen d others w)), record { rows = seen d others w; time = w.time + 1 })

  abbrev pub committed : d.tables.Rows → ℕ → Option d.tables.Rows → Bool × World d
  committed old time none = (false, record { rows = old; time = time + 1 })
  committed old time (some new) = (true, record { rows = new; time = time + 1 })

  -- whether the statement was committed; it is rolled back otherwise
  abbrev pub commit : (d.tables.Rows → Option d.tables.Rows) → Action d Bool
  commit f others w =
      let (written, w') = committed (seen d others w) w.time (f (seen d others w)) in
      (ok written, w')

module _ {d : Database} {E A B : Type 0} where
  abbrev pub continue : Result E A → (A → Handler d E B) → Handler d E B
  continue (ok a) f others w = f a others w
  continue (err e) f others w = (err e, w)

  infixl 10 ◌>>=◌
  abbrev pub ◌>>=◌ : Handler d E A → (A → Handler d E B) → Handler d E B
  ◌>>=◌ m f others w = let (r, w') = m others w in continue r f others w'
