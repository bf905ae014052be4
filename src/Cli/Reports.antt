-- ===== src/Cli/Reports.antt =====
-- What the user of the command line sees of an error, and the resources of a deployment.
use Prim.Native.String.{◌∷◌ as char, [] as blank, ◌++◌ as append}
use Prim.Native.String.append.{nil as append_nil, cons as append_cons}
use Prim.Native.Char.{code}
use kernexys.Prelude.{
  ◌≢◌, Bool-cases, inl, inr, ℕ, String, Bool, true, false, Option, none, some, List, [], ◌∷◌, ◌≡◌,
  refl, ap, ◌∙◌, ok, ◌==◌, eq_iff, if◌then◌else◌, arith,
}
use kernexys.Prelude.Dict.{Dict, lookup, or_else}
use kernexys.Json.{Json}
use kernexys.Errors.{error_response}
use kernexys.Cli.Run.{
  Arguments, Request, Opened, Ending, Printing, run, error_message, build_request, partition,
  assign, key_values, key_values_from, is_key_value,
}

-- With a positive timeout and arguments from which a request is built: when the API answers
-- that request with an HTTP error whose body is an error response of app/errors.py, run sends
-- this one request, prints the message of the error response on stderr and exits with 1.
pub run-error_response :
    {Content Double : Type 0} (p : Printing Content) (a : Arguments Double)
    (at_most_zero : Double → Bool) (token : String) (opener : Request → Opened Content)
    (request : Request) (status : ℕ) (content : Content) (request_id : Option String)
    (code message : String) (details : Option Json)
    → at_most_zero a.timeout ≡ false
    → build_request a token ≡ ok request
    → opener request ≡ Opened.http_error status content
    → p.loads content ≡ some (error_response request_id status code message details).content
    → run p a at_most_zero token opener ≡ (Ending.reported 1 message, request ∷ [])
unfolding run error_message error_response
run-error_response p a at_most_zero token opener request status content request_id code message
      details positive built answered body =
    rw (positive, built, answered, body) refl

abbrev pub HasNoEquals : String → Type 0
HasNoEquals blank = Unit {0}
HasNoEquals (char c s) = (code c ≢ b'=') × HasNoEquals s

-- the text NAME=QUANTITY
abbrev pub written : String × String → String
written (name, quantity) = append name (append "=" quantity)

abbrev pub all_written : List (String × String) → List String
all_written [] = []
all_written (value ∷ values) = written value ∷ all_written values

-- Both parts are there, and the name has no equals sign; the quantity may have some.
abbrev pub AreGiven : List (String × String) → Type 0
AreGiven [] = Unit {0}
AreGiven ((name, quantity) ∷ values) =
    (name ≢ "") × HasNoEquals name × (quantity ≢ "") × AreGiven values

-- the quantity that the last of the values gives a name
abbrev pub given : String → List (String × String) → Option String
given k [] = none
given k ((name, quantity) ∷ values) =
    let rest : Option String = given k values in
    or_else rest (if name == k then some quantity else none)

partition-written :
    (name quantity : String)
    → HasNoEquals name
    → partition (append name (append "=" quantity)) ≡ (name, true, quantity)
unfolding partition
partition-written blank quantity h =
    rw (append_nil (append "=" quantity), append_cons "=" "" quantity, append_nil quantity) refl
partition-written (char c s) quantity (other, h) =
    rw (append_cons c s (append "=" quantity), partition-written s quantity h) (ground arith)

not_empty : (s : String) → s ≢ "" → (s == "") ≡ false
not_empty s h = elim (Bool-cases (s == "")) [ inl e ↦ absurd (h ((eq_iff s "").0 e)) | inr e ↦ e ]

is_key_value-given :
    (name quantity : String)
    → name ≢ ""
    → quantity ≢ ""
    → is_key_value (name, true, quantity) ≡ true
is_key_value-given name quantity a b = rw (not_empty name a, not_empty quantity b) refl

lookup-assign :
    (name quantity k : String) (d : Dict String)
    → lookup k (assign name quantity d) ≡ (if name == k then some quantity else lookup k d)
unfolding assign
lookup-assign name quantity k [] = refl
lookup-assign name quantity k ((j, v) ∷ d) =
    ground (arith, lookup-assign name quantity k d, eq_iff j name, eq_iff j k, eq_iff name k)

or_else_assoc : (a b c : Option String) → or_else a (or_else b c) ≡ or_else (or_else a b) c
or_else_assoc none b c = refl
or_else_assoc (some a) b c = refl

if_or_else :
    (b : Bool) (x : String) (o : Option String)
    → (if b then some x else o) ≡ or_else (if b then some x else none) o
if_or_else true x o = refl
if_or_else false x o = refl

or_else-none : (o : Option String) → or_else o none ≡ o
or_else-none none = refl
or_else-none (some x) = refl

key_values_from-lookup :
    (values : List (String × String)) (result : Dict String)
    → AreGiven values
    → (d : Dict String) × (key_values_from result (all_written values) ≡ ok d)
      × ((k : String) → lookup k d ≡ or_else (given k values) (lookup k result))
unfolding key_values_from
key_values_from-lookup [] result all = (result, refl, λ k. refl)
key_values_from-lookup ((name, quantity) ∷ values) result (a, plain, b, all) =
    let rest = key_values_from-lookup values (assign name quantity result) all in
    (
      rest.0,
      rw (partition-written name quantity plain) (rw (is_key_value-given name quantity a b) rest.1),
      λ k.
          rest.2 k
          ∙ ap (or_else (given k values)) (
              lookup-assign name quantity k result
              ∙ if_or_else (name == k) quantity (lookup k result))
          ∙ or_else_assoc (given k values) (if name == k then some quantity else none)
              (lookup k result),
    )

-- For values NAME=QUANTITY whose names are not empty and have no equals sign and whose
-- quantities are not empty, with or without equals signs of their own, _key_values returns a
-- dict that has for each name the quantity of the last value with that name, and no other
-- names.
pub key_values-given :
    (values : List (String × String))
    → AreGiven values
    → (d : Dict String) × (key_values (all_written values) ≡ ok d)
      × ((k : String) → lookup k d ≡ given k values)
unfolding key_values
key_values-given values all =
    let found = key_values_from-lookup values [] all in
    (found.0, found.1, λ k. found.2 k ∙ or_else-none (given k values))
