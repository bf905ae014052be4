-- ===== src/Logging/Extras.antt =====
-- What a caller hands to the structured logger stands in the line that is written.
use kernexys.Prelude.{
  String, Bool, true, false, Option, none, some, [], ◌∷◌, ◌==◌, eq_iff, if◌then◌else◌, ◌≡◌, refl,
  ap, ◌∙◌, arith,
}
use kernexys.Prelude.Dict.{Dict, lookup, or_else}
use kernexys.Json.{Json, str}
use kernexys.Logging.{
  LogRecord, Extra, assign, update, head, with_exception, structured_payload, log_fields,
}

-- the value that stands last under a key
abbrev pub last : String → Dict Json → Option Json
last k [] = none
last k ((j, v) ∷ d) =
    let rest : Option Json = last k d in or_else rest (if j == k then some v else none)

lookup-assign :
    (k : String) (v : Json) (j : String) (d : Dict Json)
    → lookup j (assign k v d) ≡ (if k == j then some v else lookup j d)
lookup-assign k v j [] = refl
lookup-assign k v j ((i, w) ∷ d) =
    ground (arith, lookup-assign k v j d, eq_iff i k, eq_iff i j, eq_iff k j)

or_else_assoc :
    (a : Option Json) (b : Bool) (x : Json) (c : Option Json)
    → or_else a (if b then some x else c) ≡ or_else (or_else a (if b then some x else none)) c
or_else_assoc none true x c = refl
or_else_assoc none false x c = refl
or_else_assoc (some a) b x c = refl

lookup-update :
    (j : String) (d other : Dict Json)
    → lookup j (update d other) ≡ or_else (last j other) (lookup j d)
lookup-update j d [] = refl
lookup-update j d ((k, v) ∷ other) =
    lookup-update j (assign k v d) other
    ∙ ap (or_else (last j other)) (lookup-assign k v j d)
    ∙ or_else_assoc (last j other) (k == j) v (lookup j d)

or_else-some : (a b : Option Json) (v : Json) → a ≡ some v → or_else a b ≡ some v
or_else-some a b v h = rw h refl

-- Under a key that the fields have once, the line has the value that the caller gave last.
pub structured_payload-log_fields :
    (correlation_id : String) (extra : Extra) (record_ : LogRecord) (key : String) (value : Json)
    → last key extra.entries ≡ some value
    → last key (log_fields correlation_id (some extra))
      ≡ lookup key (log_fields correlation_id (some extra))
    → lookup key
        (structured_payload correlation_id (some (log_fields correlation_id (some extra))) record_)
      ≡ some value
unfolding structured_payload log_fields
structured_payload-log_fields correlation_id extra record_ key value given unique =
    let fields : Dict Json = log_fields correlation_id (some extra) in
    let early : Dict Json =
      update (("correlation_id", str correlation_id) ∷ []) extra.extra_fields in
    let line : Dict Json =
      with_exception record_.exception
        (assign "correlation_id" (str correlation_id) (head record_)) in
    let kept : lookup key fields ≡ some value =
      lookup-update key early extra.entries
      ∙ or_else-some (last key extra.entries) (lookup key early) value given in
    lookup-update key line fields
    ∙ or_else-some (last key fields) (lookup key line) value (unique ∙ kept)
