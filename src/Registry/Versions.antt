-- ===== src/Registry/Versions.antt =====
-- put_version against what the other sessions commit: they only add rows and update descriptions.
use kernexys.Prelude.{
  ℕ, ◌+◌, String, ◌≡◌, refl, sym, ◌∙◌, true, false, Option, none, some, ok, inl, inr, Option-cases,
}
use mathlib.Core.Bool.{false≢true}
use mathlib.Core.Option.{none-ne-some, some-injective}
use kernexys.Json.{Json}
use kernexys.Registry.{WriteResult, put_version, found_version}
use kernexys.Registry.Session.{
  Database, RegisteredModel, ModelVersion, Tables, Keeps, Holds, Others, World, seen,
}

pub Keeps-refl : (t : Tables) (a : t.Rows) → Keeps t a a
Keeps-refl t a = record { models = λ name m h. (m, h); versions = λ name version v h. h }

pub Keeps-trans : (t : Tables) {a b c : t.Rows} → Keeps t a b → Keeps t b c → Keeps t a c
Keeps-trans t p q = record {
  models = λ name m h. let (n, e) = p.models name m h in q.models name n e;
  versions = λ name version v h. q.versions name version v (p.versions name version v h);
}

-- The other sessions do no more than these methods do.
abbrev pub IsFair : (d : Database) → Others d → Type 0
IsFair d others = (time : ℕ) (rows : d.tables.Rows) → Keeps d.tables rows (others time rows)

module _ (d : Database) (name version image : String) (digest : Option String)
    (metadata : Json) where
  -- What put_version promises of its end.
  pub record IsStored (old : d.tables.Rows) (r : WriteResult ModelVersion) (w : World d)
      : Type 0 where
    pub stored : d.tables.select name version w.rows ≡ some r.value
    pub written : r.created ≡ true → Holds r.value name version image digest metadata
    pub kept : Keeps d.tables old w.rows

  module _ (others : Others d) (fair : IsFair d others) where
    -- the row that is read back after the insert
    abbrev re_read : ℕ → d.tables.Rows → World d
    re_read time rows = record { rows = others time rows; time = time + 1 }

    -- with the model there and the version not seen yet
    inserted :
        (rows : d.tables.Rows) (time : ℕ) (m : RegisteredModel)
        → d.tables.get name rows ≡ some m
        → (r : WriteResult ModelVersion) × (w : World d) × (found_version d name version image
              digest metadata none others
              (record { rows = rows; time = time })
            ≡ (ok r, w))
          × IsStored rows r w
    inserted rows time m there =
        let old : d.tables.Rows = others time rows in
        let before : Keeps d.tables rows old = fair time rows in
        elim (Option-cases (d.add_version name version image digest metadata old)) [
          | inl refused ↦ elim (d.add_version-none name version image digest metadata old refused) [
            | inl held ↦
                let after : Keeps d.tables old (others (time + 1) old) = fair (time + 1) old in
                let read = after.versions name version held.0 held.1 in
                (
                  record { value = held.0; created = false },
                  re_read (time + 1) old,
                  rw (refused, read),
                  record {
                    stored = read;
                    written = λ h. absurd (false≢true h);
                    kept = Keeps-trans d.tables before after;
                  },
                )
            | inr gone ↦
                let n = before.models name m there in absurd (none-ne-some n.0 (sym gone ∙ n.1))
          ]
          | inr taken ↦
              let law = d.add_version-some name version image digest metadata old taken.0 taken.1 in
              let after : Keeps d.tables taken.0 (others (time + 1) taken.0) =
                fair (time + 1) taken.0 in
              let read = after.versions name version law.1.0 law.1.1 in
              (
                record { value = law.1.0; created = true },
                re_read (time + 1) taken.0,
                rw (taken.1, read),
                record {
                  stored = read;
                  written = λ h. law.1.2;
                  kept = Keeps-trans d.tables before (Keeps-trans d.tables law.0 after);
                },
              )
        ]

    pub put_version_answered :
        (w : World d) (m : RegisteredModel)
        → d.tables.get name w.rows ≡ some m
        → (r : WriteResult ModelVersion) × (w' : World d) × (put_version d name version image digest
              metadata others w
            ≡ (ok r, w'))
          × IsStored w.rows r w'
          × ((v : ModelVersion)
              → d.tables.select name version w.rows ≡ some v
              → (r.value ≡ v) × (r.created ≡ false))
    unfolding put_version
    put_version_answered w m there =
        let now : d.tables.Rows = seen d others w in
        let kept : Keeps d.tables w.rows now = fair w.time w.rows in
        elim (Option-cases (d.tables.select name version now)) [
          | inl absent ↦
              let n = kept.models name m there in
              let done = inserted now (w.time + 1) n.0 n.1 in
              (
                done.0,
                done.1,
                rw absent done.2,
                record {
                  stored = done.3.stored;
                  written = done.3.written;
                  kept = Keeps-trans d.tables kept done.3.kept;
                },
                λ v h. absurd (none-ne-some v (sym absent ∙ kept.versions name version v h)),
              )
          | inr present ↦ (
            record { value = present.0; created = false },
            record { rows = now; time = w.time + 1 },
            rw present.1,
            record { stored = present.1; written = λ h. absurd (false≢true h); kept = kept },
            λ v h.
                (some-injective present.0 v (sym present.1 ∙ kept.versions name version v h), refl),
          )
        ]
