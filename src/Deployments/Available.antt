-- ===== src/Deployments/Available.antt =====
-- _ready_endpoint against a description of the objects that are ready.
use kernexys.Prelude.{
  String, Bool, true, false, Option, none, some, ◌≡◌, ◌↔◌, inl, inr, refl, sym, ap, ◌∙◌, ◌==◌,
  Result, ok, err, Bool-cases,
}
use mathlib.Core.Bool.{false≢true}
use kernexys.Json.{
  Json, str, obj, arr, null, bool, int, negative, real, Items, nil, cons, Fields, field, end,
  member,
}
use kernexys.Prelude.{arith, eq_iff}
use kernexys.Deployments.Ready.{
  is_text, Raised, is_available, any_available, ready_endpoint, endpoint_of, ready_if, ready_status,
  over,
}

-- Dicts only, up to one that says Available is True.
pub data IsAvailable : Items → Type 0 where
  here :
      (condition : Fields) (rest : Items)
      → member "type" condition ≡ some (str "Available")
      → member "status" condition ≡ some (str "True")
      → IsAvailable (cons (obj condition) rest)
  there :
      (condition : Fields) {rest : Items}
      → IsAvailable rest
      → IsAvailable (cons (obj condition) rest)

pub data IsReady : Option Json → String → Type 0 where
  ready :
      (status : Fields) (conditions : Items) (endpoint : String)
      → member "conditions" status ≡ some (arr conditions)
      → IsAvailable conditions
      → member "endpoint" status ≡ some (str endpoint)
      → (endpoint == "") ≡ false
      → IsReady (some (obj status)) endpoint

abbrev is_ok : {A : Type 0} → Result Raised A → Bool
is_ok (ok a) = true
is_ok (err e) = false

abbrev ok_or : {A : Type 0} → A → Result Raised A → A
ok_or a (ok b) = b
ok_or a (err e) = a

is_text_sound : (s : String) (o : Option Json) → is_text s o ≡ true → o ≡ some (str s)
is_text_sound s (some (str t)) h = ap (λ x. some (str x)) ((eq_iff t s).0 h)
is_text_sound s none h = absurd (false≢true h)
is_text_sound s (some null) h = absurd (false≢true h)
is_text_sound s (some (bool b)) h = absurd (false≢true h)
is_text_sound s (some (int n)) h = absurd (false≢true h)
is_text_sound s (some (negative n)) h = absurd (false≢true h)
is_text_sound s (some (real t)) h = absurd (false≢true h)
is_text_sound s (some (arr items)) h = absurd (false≢true h)
is_text_sound s (some (obj d)) h = absurd (false≢true h)

is_available_fields :
    (condition : Fields)
    → is_available condition ≡ true
    → (member "type" condition ≡ some (str "Available"))
      × (member "status" condition ≡ some (str "True"))
is_available_fields condition h = (
  is_text_sound "Available" (member "type" condition) (ground arith),
  is_text_sound "True" (member "status" condition) (ground arith),
)

any_available-IsAvailable : (items : Items) → any_available items ≡ ok true → IsAvailable items
unfolding any_available
any_available-IsAvailable nil h = absurd (false≢true (ap (ok_or false) h))
any_available-IsAvailable (cons (obj condition) rest) h =
    elim (Bool-cases (is_available condition)) [
      | inl good ↦
          here condition rest (is_available_fields condition good).0
            (is_available_fields condition good).1
      | inr poor ↦ there condition (any_available-IsAvailable rest (rw poor at h))
    ]
any_available-IsAvailable (cons null rest) h = absurd (false≢true (ap is_ok h))
any_available-IsAvailable (cons (bool b) rest) h = absurd (false≢true (ap is_ok h))
any_available-IsAvailable (cons (int n) rest) h = absurd (false≢true (ap is_ok h))
any_available-IsAvailable (cons (negative n) rest) h = absurd (false≢true (ap is_ok h))
any_available-IsAvailable (cons (real t) rest) h = absurd (false≢true (ap is_ok h))
any_available-IsAvailable (cons (str s) rest) h = absurd (false≢true (ap is_ok h))
any_available-IsAvailable (cons (arr items) rest) h = absurd (false≢true (ap is_ok h))

IsAvailable-any_available : {items : Items} → IsAvailable items → any_available items ≡ ok true
unfolding any_available
IsAvailable-any_available (here condition rest kind status) = rw (kind, status) refl
IsAvailable-any_available (there condition {rest} a) = elim (Bool-cases (is_available condition)) [
  | inl good ↦ rw good refl
  | inr poor ↦ rw poor (IsAvailable-any_available a)
]

over-IsAvailable :
    (o : Option Json)
    → over o ≡ ok true
    → (items : Items) × (o ≡ some (arr items)) × IsAvailable items
over-IsAvailable none h = absurd (false≢true (ap (ok_or false) h))
over-IsAvailable (some (arr items)) h = (items, refl, any_available-IsAvailable items h)
over-IsAvailable (some (obj end)) h = absurd (false≢true (ap (ok_or false) h))
over-IsAvailable (some (obj (field k v d))) h = absurd (false≢true (ap is_ok h))
over-IsAvailable (some (str s)) h = elim (Bool-cases (s == "")) [
  | inl e ↦ absurd (false≢true (ap (ok_or false) (rw e at h)))
  | inr e ↦ absurd (false≢true (ap is_ok (rw e at h)))
]
over-IsAvailable (some null) h = absurd (false≢true (ap is_ok h))
over-IsAvailable (some (bool b)) h = absurd (false≢true (ap is_ok h))
over-IsAvailable (some (int n)) h = absurd (false≢true (ap is_ok h))
over-IsAvailable (some (negative n)) h = absurd (false≢true (ap is_ok h))
over-IsAvailable (some (real t)) h = absurd (false≢true (ap is_ok h))

endpoint_of-inv :
    (o : Option Json) (endpoint : String)
    → endpoint_of o ≡ ok endpoint
    → (o ≡ some (str endpoint)) × ((endpoint == "") ≡ false)
endpoint_of-inv (some (str s)) endpoint h = elim (Bool-cases (s == "")) [
  | inl e ↦ absurd (false≢true (ap is_ok (rw e at h)))
  | inr e ↦
      let same : s ≡ endpoint = ap (ok_or s) (rw e at h) in
      (ap (λ x. some (str x)) same, ap (λ x. x == "") (sym same) ∙ e)
]
endpoint_of-inv none endpoint h = absurd (false≢true (ap is_ok h))
endpoint_of-inv (some null) endpoint h = absurd (false≢true (ap is_ok h))
endpoint_of-inv (some (bool b)) endpoint h = absurd (false≢true (ap is_ok h))
endpoint_of-inv (some (int n)) endpoint h = absurd (false≢true (ap is_ok h))
endpoint_of-inv (some (negative n)) endpoint h = absurd (false≢true (ap is_ok h))
endpoint_of-inv (some (real t)) endpoint h = absurd (false≢true (ap is_ok h))
endpoint_of-inv (some (arr items)) endpoint h = absurd (false≢true (ap is_ok h))
endpoint_of-inv (some (obj d)) endpoint h = absurd (false≢true (ap is_ok h))

ready_if-inv :
    (r : Result Raised Bool) (o : Option Json) (endpoint : String)
    → ready_if r o ≡ ok endpoint
    → (r ≡ ok true) × (endpoint_of o ≡ ok endpoint)
ready_if-inv (ok true) o endpoint h = (refl, h)
ready_if-inv (ok false) o endpoint h = absurd (false≢true (ap is_ok h))
ready_if-inv (err e) o endpoint h = absurd (false≢true (ap is_ok h))

ready_status-IsReady :
    (o : Option Json) (endpoint : String) → ready_status o ≡ ok endpoint → IsReady o endpoint
ready_status-IsReady (some (obj status)) endpoint h =
    let both =
      ready_if-inv (over (member "conditions" status)) (member "endpoint" status) endpoint h in
    let found = over-IsAvailable (member "conditions" status) both.0 in
    let url = endpoint_of-inv (member "endpoint" status) endpoint both.1 in
    ready status found.0 endpoint found.1 found.2 url.0 url.1
ready_status-IsReady none endpoint h = absurd (false≢true (ap is_ok h))
ready_status-IsReady (some null) endpoint h = absurd (false≢true (ap is_ok h))
ready_status-IsReady (some (bool b)) endpoint h = absurd (false≢true (ap is_ok h))
ready_status-IsReady (some (int n)) endpoint h = absurd (false≢true (ap is_ok h))
ready_status-IsReady (some (negative n)) endpoint h = absurd (false≢true (ap is_ok h))
ready_status-IsReady (some (real t)) endpoint h = absurd (false≢true (ap is_ok h))
ready_status-IsReady (some (str s)) endpoint h = absurd (false≢true (ap is_ok h))
ready_status-IsReady (some (arr items)) endpoint h = absurd (false≢true (ap is_ok h))

IsReady-ready_status :
    {o : Option Json} {endpoint : String} → IsReady o endpoint → ready_status o ≡ ok endpoint
IsReady-ready_status (ready status conditions endpoint c available e some_text) =
    rw (c, IsAvailable-any_available available, e, some_text) refl

-- _ready_endpoint returns an endpoint exactly when the status is a dict whose conditions are a
-- list with dicts only up to one that says Available is True, and whose endpoint is that text
-- and not empty.
pub ready_endpoint-IsReady :
    (deployment : Fields) (endpoint : String)
    → (ready_endpoint deployment ≡ ok endpoint) ↔ IsReady (member "status" deployment) endpoint
unfolding ready_endpoint
ready_endpoint-IsReady deployment endpoint =
    (ready_status-IsReady (member "status" deployment) endpoint, IsReady-ready_status)
