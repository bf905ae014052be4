-- ===== src/Registry/History.antt =====
-- Any sequence of writes, whatever each of them returns or raises.
use kernexys.Prelude.{
  String, ◌≡◌, refl, Bool, true, false, not, ◌&&◌, Option, none, some, List, [], ◌∷◌, Result, ok,
  err, inl, inr, Option-cases, if◌then◌else◌,
}
use kernexys.Registry.{
  WriteResult, put_model as write_model, put_version as write_version, get_model as stored_model,
  found_model, found_version, update_description, refreshed, retry_version, retry_model, same_text,
  version_matches,
}
use kernexys.Registry.Session.{
  Database, DatabaseError, RegisteredModel, ModelVersion, Handler, Keeps, Others, World, seen,
  query, commit, ◌>>=◌, continue, pure,
}
use kernexys.Registry.Routes.{
  put_model, put_version, get_version, read_version, VersionCreate, lift, settle_version, of_model,
}
use kernexys.Registry.Versions.{Keeps-refl, Keeps-trans, IsFair}

pub data Write : Type 0 where
  model : String → Option String → Write
  version : String → String → VersionCreate → Write

module _ (d : Database) (others : Others d) where
  -- the rows after a write, whether it succeeded or failed
  unfoldable pub serve : List Write → World d → World d
  unfolding put_model put_version
  serve [] w = w
  serve (model name description ∷ rest) w = serve rest (put_model d name description others w).1
  serve (version name label body ∷ rest) w = serve rest (put_version d name label body others w).1

  -- Whatever it returns or raises, it keeps what is stored.
  abbrev IsGentle : {E A : Type 0} → Handler d E A → Type 0
  IsGentle m = (w : World d) → Keeps d.tables w.rows (m others w).1.rows

  module _ (fair : IsFair d others) where
    query-IsGentle : {A : Type 0} (f : d.tables.Rows → A) → IsGentle (query d f)
    query-IsGentle f w = fair w.time w.rows

    commit-IsGentle :
        (f : d.tables.Rows → Option d.tables.Rows)
        → ((old new : d.tables.Rows) → f old ≡ some new → Keeps d.tables old new)
        → IsGentle (commit d f)
    commit-IsGentle f law w =
        let before : Keeps d.tables w.rows (seen d others w) = fair w.time w.rows in
        elim (Option-cases (f (seen d others w))) [
          | inl e ↦ rw e before
          | inr e ↦ rw e.1 (Keeps-trans d.tables before (law (seen d others w) e.0 e.1))
        ]

    pure-IsGentle : {E A : Type 0} (r : Result E A) → IsGentle {E = E} (λ o w. (r, w))
    pure-IsGentle r w = Keeps-refl d.tables w.rows

    continue-IsGentle :
        {E A B : Type 0} (r : Result E A) (f : A → Handler d E B)
        → ((a : A) → IsGentle (f a))
        → IsGentle (continue r f)
    continue-IsGentle (ok a) f b w = b a w
    continue-IsGentle (err e) f b w = Keeps-refl d.tables w.rows

    bind-IsGentle :
        {E A B : Type 0} (m : Handler d E A) (f : A → Handler d E B)
        → IsGentle m
        → ((a : A) → IsGentle (f a))
        → IsGentle (m >>= f)
    bind-IsGentle m f a b w =
        let (r, w') = m others w in
        Keeps-trans d.tables (a w) (continue-IsGentle (m others w).0 f b (m others w).1)

    refreshed-IsGentle : {A : Type 0} (o : Option A) → IsGentle (refreshed d o)
    refreshed-IsGentle none w = Keeps-refl d.tables w.rows
    refreshed-IsGentle (some a) w = Keeps-refl d.tables w.rows

    abbrev result : {A : Type 0} → Bool → A → WriteResult A
    result created value = record { value = value; created = created }

    -- Reading a row back and answering with it.
    read_back-IsGentle :
        {A B : Type 0} (f : d.tables.Rows → Option A) (k : A → B)
        → IsGentle (query d f >>= λ row. refreshed d row >>= λ value. pure (k value))
    read_back-IsGentle f k =
        bind-IsGentle (query d f) (λ row. refreshed d row >>= λ value. pure (k value))
          (query-IsGentle f)
          (λ row.
            bind-IsGentle (refreshed d row) (λ value. pure (k value)) (refreshed-IsGentle row)
              (λ value. pure-IsGentle {E = DatabaseError} (ok (k value))))

    if-IsGentle :
        {E A : Type 0} (b : Bool) (m n : Handler d E A)
        → IsGentle m
        → IsGentle n
        → IsGentle (if b then m else n)
    if-IsGentle true m n p q = p
    if-IsGentle false m n p q = q

    -- A statement that is committed or refused, and what follows in either case.
    write-IsGentle :
        {A : Type 0} (f : d.tables.Rows → Option d.tables.Rows) (m n : Handler d DatabaseError A)
        → ((old new : d.tables.Rows) → f old ≡ some new → Keeps d.tables old new)
        → IsGentle m
        → IsGentle n
        → IsGentle (commit d f >>= λ written. if written then m else n)
    write-IsGentle f m n law p q =
        bind-IsGentle (commit d f) (λ written. if written then m else n) (commit-IsGentle f law)
          (λ written. if-IsGentle written m n p q)

    update-IsGentle :
        (name : String) (text : Option String) (m : RegisteredModel)
        → IsGentle (update_description d name text m)
    unfolding update_description
    update-IsGentle name text m =
        if-IsGentle (same_text m.description text) _ _ (λ w. Keeps-refl d.tables w.rows)
          (write-IsGentle (d.set_description name text) _ _
            (λ old new e. (d.set_description-keeps name text old new e).0)
            (read_back-IsGentle (d.tables.get name) (result false))
            (λ w. Keeps-refl d.tables w.rows))

    retry_model-IsGentle :
        (name : String) (text : Option String) (o : Option RegisteredModel)
        → IsGentle (retry_model d name text o)
    retry_model-IsGentle name text none w = Keeps-refl d.tables w.rows
    retry_model-IsGentle name text (some m) w = update-IsGentle name text m w

    found_model-IsGentle :
        (name : String) (text : Option String) (o : Option RegisteredModel)
        → IsGentle (found_model d name text o)
    found_model-IsGentle name text (some m) w = update-IsGentle name text m w
    found_model-IsGentle name text none w =
        write-IsGentle (d.add_model name text) _ _
          (λ old new e. (d.add_model-some name text old new e).0)
          (read_back-IsGentle (d.tables.get name) (result true))
          (bind-IsGentle (query d (d.tables.get name)) (retry_model d name text)
            (query-IsGentle (d.tables.get name)) (retry_model-IsGentle name text))
          w

    write_model-IsGentle :
        (name : String) (text : Option String) → IsGentle (write_model d name text)
    unfolding write_model
    write_model-IsGentle name text =
        bind-IsGentle (query d (d.tables.get name)) (found_model d name text)
          (query-IsGentle (d.tables.get name)) (found_model-IsGentle name text)

    retry_version-IsGentle : (o : Option ModelVersion) → IsGentle (retry_version d o)
    retry_version-IsGentle none w = Keeps-refl d.tables w.rows
    retry_version-IsGentle (some v) w = Keeps-refl d.tables w.rows

    module _ (name label : String) (body : VersionCreate) where
      found_version-IsGentle :
          (o : Option ModelVersion)
          → IsGentle
              (found_version d name label body.runtime_image body.artifact_digest body.metadata o)
      found_version-IsGentle (some v) w = Keeps-refl d.tables w.rows
      found_version-IsGentle none w =
          write-IsGentle
            (d.add_version name label body.runtime_image body.artifact_digest body.metadata) _ _
            (λ old new e.
              (d.add_version-some name label body.runtime_image body.artifact_digest body.metadata
                old new e).0)
            (read_back-IsGentle (d.tables.select name label) (result true))
            (bind-IsGentle (query d (d.tables.select name label)) (retry_version d)
              (query-IsGentle (d.tables.select name label)) retry_version-IsGentle)
            w

      write_version-IsGentle :
          IsGentle
            (write_version d name label body.runtime_image body.artifact_digest body.metadata)
      unfolding write_version
      write_version-IsGentle =
          bind-IsGentle (query d (d.tables.select name label))
            (found_version d name label body.runtime_image body.artifact_digest body.metadata)
            (query-IsGentle (d.tables.select name label)) found_version-IsGentle

      settle_version-IsGentle :
          (r : WriteResult ModelVersion) → IsGentle (settle_version d name label body r)
      settle_version-IsGentle r =
          if-IsGentle
            (not r.created
              && not
                  (version_matches d r.value body.runtime_image body.artifact_digest body.metadata))
            _ _ (λ w. Keeps-refl d.tables w.rows) (λ w. Keeps-refl d.tables w.rows)

      of_model-IsGentle : (o : Option RegisteredModel) → IsGentle (of_model d name label body o)
      of_model-IsGentle none w = Keeps-refl d.tables w.rows
      of_model-IsGentle (some m) w =
          bind-IsGentle
            (lift
              (write_version d name label body.runtime_image body.artifact_digest body.metadata))
            (settle_version d name label body) write_version-IsGentle settle_version-IsGentle w

      put_version-IsGentle : IsGentle (put_version d name label body)
      unfolding put_version
      put_version-IsGentle =
          bind-IsGentle (lift (stored_model d name)) (of_model d name label body)
            (query-IsGentle (d.tables.get name)) of_model-IsGentle

    put_model-IsGentle : (name : String) (text : Option String) → IsGentle (put_model d name text)
    unfolding put_model
    put_model-IsGentle name text =
        bind-IsGentle (lift (write_model d name text)) _ (write_model-IsGentle name text)
          (λ r w. Keeps-refl d.tables w.rows)

    serve-Keeps : (writes : List Write) (w : World d) → Keeps d.tables w.rows (serve writes w).rows
    unfolding serve
    serve-Keeps [] w = Keeps-refl d.tables w.rows
    serve-Keeps (model name text ∷ rest) w =
        Keeps-trans d.tables (put_model-IsGentle name text w)
          (serve-Keeps rest (put_model d name text others w).1)
    serve-Keeps (version name label body ∷ rest) w =
        Keeps-trans d.tables (put_version-IsGentle name label body w)
          (serve-Keeps rest (put_version d name label body others w).1)

    -- When other sessions only add rows and update descriptions: a version that is stored is
    -- what the get of it returns after any sequence of puts of models and versions, whatever
    -- each of them returned or raised.
    pub get_version-serve :
        (name label : String) (v : ModelVersion) (writes : List Write) (w : World d)
        → d.tables.select name label w.rows ≡ some v
        → (get_version d name label others (serve writes w)).0 ≡ ok (read_version v)
    unfolding get_version
    get_version-serve name label v writes w h =
        let done : World d = serve writes w in
        rw
          ((Keeps-trans d.tables (serve-Keeps writes w) (fair done.time done.rows)).versions name
            label v h)
          refl
