-- ===== src/Registry/Models.antt =====
-- put_model, while other sessions leave the model that it writes alone once it is there.
use kernexys.Prelude.{
  ℕ, ◌+◌, String, ◌≡◌, refl, sym, ap, ◌∙◌, true, false, Option, none, some, ok, inl, inr,
  Option-cases, Bool-cases, eq_iff,
}
use mathlib.Core.Bool.{false≢true}
use mathlib.Core.Option.{none-ne-some}
use kernexys.Registry.{WriteResult, put_model, update_description, same_text}
use kernexys.Registry.Session.{Database, RegisteredModel, Others, World, seen}

same_text_sound : (a b : Option String) → same_text a b ≡ true → a ≡ b
unfolding same_text
same_text_sound none none h = refl
same_text_sound (some a) (some b) h = ap some ((eq_iff a b).0 h)
same_text_sound none (some b) h = absurd (false≢true h)
same_text_sound (some a) none h = absurd (false≢true h)

module _ (d : Database) (others : Others d) (name : String) (description : Option String) where
  abbrev pub LeavesModel : Type 0
  LeavesModel =
      (time : ℕ) (rows : d.tables.Rows) (m : RegisteredModel)
      → d.tables.get name rows ≡ some m
      → d.tables.get name (others time rows) ≡ some m

  -- A write that returned and left the description in the row.
  pub record IsWritten (old : d.tables.Rows) (r : WriteResult RegisteredModel) (w : World d)
      : Type 0 where
    pub stored : d.tables.get name w.rows ≡ some r.value
    pub described : r.value.description ≡ description
    pub known : (m : RegisteredModel) → d.tables.get name old ≡ some m → r.created ≡ false

  module _ (leaves : LeavesModel) where
    update_description-lem :
        (rows : d.tables.Rows) (time : ℕ) (m : RegisteredModel)
        → d.tables.get name rows ≡ some m
        → (r : WriteResult RegisteredModel) × (w : World d) × (update_description d name description
              m others
              (record { rows = rows; time = time })
            ≡ (ok r, w))
          × (d.tables.get name w.rows ≡ some r.value)
          × (r.value.description ≡ description)
          × (r.created ≡ false)
    unfolding update_description
    update_description-lem rows time m there =
        elim (Bool-cases (same_text m.description description)) [
          | inl same ↦ (
            record { value = m; created = false },
            record { rows = rows; time = time },
            rw same refl,
            there,
            same_text_sound m.description description same,
            refl,
          )
          | inr other ↦
              let old : d.tables.Rows = others time rows in
              let here : d.tables.get name old ≡ some m = leaves time rows m there in
              let new = d.set_description-some name description old m here in
              let row = (d.set_description-keeps name description old new.0 new.1).1 m here in
              let read = leaves (time + 1) new.0 row.0 row.1 in
              (
                record { value = row.0; created = false },
                record { rows = others (time + 1) new.0; time = time + 1 + 1 },
                rw (other, new.1, read) refl,
                read,
                row.2,
                refl,
              )
        ]

    -- When other sessions leave the row of a model alone once it is there, the put of that
    -- model never raises, also when another session inserts it first: it ends with the row
    -- stored and with the requested description, and does not report a model that was there
    -- before as created.
    pub put_model-IsWritten :
        (w : World d)
        → (r : WriteResult RegisteredModel) × (w' : World d) × (put_model d name description others
              w
            ≡ (ok r, w'))
          × IsWritten w.rows r w'
    unfolding put_model
    put_model-IsWritten w =
        let now : d.tables.Rows = seen d others w in
        elim (Option-cases (d.tables.get name now)) [
          | inr there ↦
              let done = update_description-lem now (w.time + 1) there.0 there.1 in
              (
                done.0,
                done.1,
                rw there.1 done.2,
                record { stored = done.3; described = done.4; known = λ m h. done.5 },
              )
          | inl absent ↦
              let old : d.tables.Rows = others (w.time + 1) now in
              elim (Option-cases (d.add_model name description old)) [
                | inl refused ↦
                    let held = d.add_model-none name description old refused in
                    let read = leaves (w.time + 1 + 1) old held.0 held.1 in
                    let done =
                      update_description-lem (others (w.time + 1 + 1) old) (w.time + 1 + 1 + 1)
                        held.0 read in
                    (
                      done.0,
                      done.1,
                      rw (absent, refused, read) done.2,
                      record { stored = done.3; described = done.4; known = λ m h. done.5 },
                    )
                | inr taken ↦
                    let row = (d.add_model-some name description old taken.0 taken.1).1 in
                    let read = leaves (w.time + 1 + 1) taken.0 row.0 row.1 in
                    (
                      record { value = row.0; created = true },
                      record { rows = others (w.time + 1 + 1) taken.0; time = w.time + 1 + 1 + 1 },
                      rw (absent, taken.1, read) refl,
                      record {
                        stored = read;
                        described = row.2.description_is;
                        known =
                            λ m h. absurd (none-ne-some m (sym absent ∙ leaves w.time w.rows m h));
                      },
                    )
              ]
        ]
