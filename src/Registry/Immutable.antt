-- ===== src/Registry/Immutable.antt =====
-- What a client may rely on: a version never changes once it is stored.
use kernexys.Prelude.{
  ◌+◌, String, ◌≡◌, refl, sym, ap, ◌∙◌, Bool, true, false, Option, none, some, Result, ok, err, inl,
  inr, Bool-cases, if◌then◌else◌, eq_refl, eq_iff, ◌⊎◌, arith,
}
use mathlib.Core.Bool.{false≢true}
use kernexys.Registry.{WriteResult, version_matches, same_text}
use kernexys.Registry.Session.{
  Database, RegisteredModel, ModelVersion, Keeps, Holds, Others, World, seen,
}
use kernexys.Registry.Routes.{
  put_version, VersionCreate, VersionRead, Reply, Failure, api, immutable_version, read_version,
  settle_version,
}
use kernexys.Registry.Versions.{Keeps-trans, IsFair, put_version_answered}

same_text_refl : (o : Option String) → same_text o o ≡ true
unfolding same_text
same_text_refl none = refl
same_text_refl (some s) = eq_refl s

same_text-eq : (a b : Option String) → same_text a b ≡ true → a ≡ b
unfolding same_text
same_text-eq none none h = refl
same_text-eq (some a) (some b) h = ap some ((eq_iff a b).0 h)
same_text-eq none (some b) h = absurd (false≢true h)
same_text-eq (some a) none h = absurd (false≢true h)

module _ (d : Database) (name version : String) (body : VersionCreate) where
  -- The stored version has the image, the digest and the metadata of the request.
  abbrev pub IsRequested : ModelVersion → Type 0
  IsRequested v =
      (v.runtime_image ≡ body.runtime_image)
      × (v.artifact_digest ≡ body.artifact_digest)
      × (d.equal v.metadata_json body.metadata ≡ true)

  matches-IsRequested :
      (v : ModelVersion)
      → version_matches d v body.runtime_image body.artifact_digest body.metadata ≡ true
      → IsRequested v
  unfolding version_matches
  matches-IsRequested v h = (
    (eq_iff v.runtime_image body.runtime_image).0 (ground arith),
    same_text-eq v.artifact_digest body.artifact_digest (ground arith),
    ground arith,
  )

  IsRequested-matches :
      (v : ModelVersion)
      → IsRequested v
      → version_matches d v body.runtime_image body.artifact_digest body.metadata ≡ true
  unfolding version_matches
  IsRequested-matches v (image, digest, metadata) =
      rw (image, digest, metadata, eq_refl body.runtime_image, same_text_refl body.artifact_digest)

  version_matches-Holds :
      (v : ModelVersion)
      → Holds v name version body.runtime_image body.artifact_digest body.metadata
      → version_matches d v body.runtime_image body.artifact_digest body.metadata ≡ true
  unfolding version_matches
  version_matches-Holds v h = rw (
    h.runtime_image_is,
    h.artifact_digest_is,
    h.metadata_is,
    eq_refl body.runtime_image,
    same_text_refl body.artifact_digest,
    d.equal_refl body.metadata,
  )

  abbrev pub matches : ModelVersion → Bool
  matches v = version_matches d v body.runtime_image body.artifact_digest body.metadata

  -- The reply: the stored version, or the conflict with it.
  abbrev pub reply_for : Bool → ModelVersion → Result Failure (Reply VersionRead)
  reply_for created v =
      if matches v
      then ok (record { status_code = if created then 201 else 200; value = read_version v })
      else err (api (immutable_version name version))

  settle_version-reply_for :
      (others : Others d) (w : World d) (r : WriteResult ModelVersion)
      → (r.created ≡ true → matches r.value ≡ true)
      → settle_version d name version body r others w ≡ (reply_for r.created r.value, w)
  settle_version-reply_for others w r same = elim (Bool-cases (matches r.value)) [
    | inl good ↦ elim (Bool-cases r.created) [ inl c ↦ rw (c, good) | inr c ↦ rw (c, good) ]
    | inr poor ↦ elim (Bool-cases r.created) [
      | inl c ↦ absurd (false≢true (sym poor ∙ same c))
      | inr c ↦ rw (c, poor)
    ]
  ]

  module _ (others : Others d) (fair : IsFair d others) (w : World d) (m : RegisteredModel)
      (there : d.tables.get name w.rows ≡ some m) where
    put_version-reply_for :
        (v : ModelVersion) × (created : Bool) × (w' : World d) × (put_version d name version body
            others w
          ≡ (reply_for created v, w'))
        × (d.tables.select name version w'.rows ≡ some v)
        × Keeps d.tables w.rows w'.rows
        × (created ≡ true
            → Holds v name version body.runtime_image body.artifact_digest body.metadata)
        × ((x : ModelVersion)
            → d.tables.select name version w.rows ≡ some x
            → (v ≡ x) × (created ≡ false))
    unfolding put_version
    put_version-reply_for =
        let now : d.tables.Rows = seen d others w in
        let kept : Keeps d.tables w.rows now = fair w.time w.rows in
        let n = kept.models name m there in
        let done =
          put_version_answered d name version body.runtime_image body.artifact_digest body.metadata
            others fair (record { rows = now; time = w.time + 1 }) n.0 n.1 in
        (
          done.0.value,
          done.0.created,
          done.1,
          rw n.1 (
              rw done.2 (
                settle_version-reply_for others done.1 done.0
                  (λ h. version_matches-Holds done.0.value (done.3.written h)))),
          done.3.stored,
          Keeps-trans d.tables kept done.3.kept,
          done.3.written,
          λ x h. done.4 x (kept.versions name version x h),
        )

    -- When other sessions only add rows and update descriptions, and the model is there: the
    -- put of a version ends with a stored version and answers by it, 201 or 200 with that
    -- version exactly if its image and artifact digest are the requested ones and its metadata
    -- equals the requested, and 409 otherwise; what was stored stays, a version that this
    -- request created has the name, version, image, digest and metadata of the request, and one
    -- that was there before is the one answered with, and not reported as created.
    pub put_version_replies :
        (v : ModelVersion) × (created : Bool) × (w' : World d) × (((IsRequested v)
            × (put_version d name version body others w ≡ (
              ok (record { status_code = if created then 201 else 200; value = read_version v }),
              w',
            )))
          ⊎ ((¬ IsRequested v)
              × (put_version d name version body others w
                  ≡ (err (api (immutable_version name version)), w'))))
        × (d.tables.select name version w'.rows ≡ some v)
        × Keeps d.tables w.rows w'.rows
        × (created ≡ true
            → Holds v name version body.runtime_image body.artifact_digest body.metadata)
        × ((x : ModelVersion)
            → d.tables.select name version w.rows ≡ some x
            → (v ≡ x) × (created ≡ false))
    put_version_replies =
        let (v, created, w', run, selected, kept, written, old) = put_version-reply_for in
        (
          v,
          created,
          w',
          elim (Bool-cases (matches v)) [
            | inl good ↦ inl (matches-IsRequested v good, run ∙ rw good refl)
            | inr poor ↦
                inr (λ h. false≢true (sym poor ∙ IsRequested-matches v h), run ∙ rw poor refl)
          ],
          selected,
          kept,
          written,
          old,
        )

  -- the reply to the same request once more
  abbrev again : Result Failure (Reply VersionRead) → Result Failure (Reply VersionRead)
  again (ok reply) = ok (record { status_code = 200; value = reply.value })
  again (err e) = err e

  again-reply_for :
      (created : Bool) (v : ModelVersion) → again (reply_for created v) ≡ reply_for false v
  again-reply_for created v = elim (Bool-cases (matches v)) [ inl h ↦ rw h | inr h ↦ rw h ]

  module _ (others : Others d) (fair : IsFair d others) (w : World d) (m : RegisteredModel)
      (there : d.tables.get name w.rows ≡ some m) where
    -- When other sessions only add rows and update descriptions, and the model is there: after
    -- the put of a version succeeded, the same request again succeeds with 200 and the same
    -- version.
    pub put_version-put_version :
        (reply : Reply VersionRead)
        → (put_version d name version body others w).0 ≡ ok reply
        → (put_version d name version body others (put_version d name version body others w).1).0
          ≡ ok (record { status_code = 200; value = reply.value })
    put_version-put_version reply first =
        let one = put_version-reply_for others fair w m there in
        let n = one.5.models name m there in
        let two = put_version-reply_for others fair one.2 n.0 n.1 in
        let same = two.7 one.0 one.4 in
        rw one.3 (
          rw two.3 (
            rw (same.0, same.1)
              (sym (again-reply_for one.1 one.0) ∙ ap again (sym (ap (λ x. x.0) one.3) ∙ first))))
