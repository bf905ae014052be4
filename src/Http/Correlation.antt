-- ===== src/Http/Correlation.antt =====
-- Whatever a client sends, the id that comes back is safe to log and to put in a header.
use kernexys.Prelude.{
  ℕ, ◌≤◌, ◌≡◌, true, Option, some, List, [], ◌∷◌, ◌++◌, length, arith, Result, ok, err, Bool-cases,
  inl, inr,
}
use kernexys.Http.RequestId.{
  Response, Request, Context, LogRecord, dispatch, chosen_id, is_request_id, is_id_char, all,
  header_or_empty,
}

-- Printable ASCII, with no space, quote or line break.
abbrev pub IsPrintable : List ℕ → Type 0
IsPrintable [] = Unit {0}
IsPrintable (c ∷ s) = (45 ≤ c) × (c ≤ 122) × IsPrintable s

is_id_char-bounds : (c : ℕ) → is_id_char c ≡ true → (45 ≤ c) × (c ≤ 122)
unfolding is_id_char
is_id_char-bounds c h = ground arith

all-IsPrintable : (s : List ℕ) → all is_id_char s ≡ true → IsPrintable s
all-IsPrintable [] h = tt
all-IsPrintable (c ∷ s) h =
    let b : (45 ≤ c) × (c ≤ 122) = is_id_char-bounds c (ground arith) in
    (b.0, b.1, all-IsPrintable s (ground arith))

-- An accepted id has 1 to 128 characters, all printable.
is_request_id-IsPrintable :
    (s : List ℕ) → is_request_id s ≡ true → IsPrintable s × (1 ≤ length s) × (length s ≤ 128)
unfolding is_request_id
is_request_id-IsPrintable s h = (all-IsPrintable s (ground arith), ground arith, ground arith)

chosen_id-valid :
    (fresh : List ℕ) (supplied : Option (List ℕ))
    → is_request_id fresh ≡ true
    → is_request_id (chosen_id fresh supplied) ≡ true
unfolding chosen_id
chosen_id-valid fresh supplied h = elim (Bool-cases (is_request_id (header_or_empty supplied))) [
  | inl good ↦ rw good good
  | inr poor ↦ rw poor h
]

chosen_id-supplied :
    (fresh : List ℕ) (supplied : Option (List ℕ))
    → is_request_id (header_or_empty supplied) ≡ true
    → chosen_id fresh supplied ≡ header_or_empty supplied
unfolding chosen_id
chosen_id-supplied fresh supplied h = rw h

module _ {E : Type 0} (fresh : List ℕ) (request : Request)
    (call_next : Context → Result E Response × List LogRecord) (c : Context) where
  -- the context that the handler runs in
  abbrev pub inside : Context
  inside = record c { request_id = some (chosen_id fresh request.supplied) }

  -- If the fresh id is well formed and the handler returns a response, dispatch returns it with
  -- its status and one request id, of 1 to 128 characters from - to z, which is the supplied
  -- one if that is well formed.
  pub dispatch_id :
      (r : Response) (log : List LogRecord)
      → is_request_id fresh ≡ true
      → call_next inside ≡ (ok r, log)
      → (id : List ℕ) × ((dispatch fresh request call_next c).0
          ≡ ok (record { status_code = r.status_code; request_id = some id }))
        × IsPrintable id
        × (1 ≤ length id)
        × (length id ≤ 128)
        × (is_request_id (header_or_empty request.supplied) ≡ true
            → id ≡ header_or_empty request.supplied)
  unfolding dispatch
  dispatch_id r log fresh_id run =
      let v =
        is_request_id-IsPrintable (chosen_id fresh request.supplied)
          (chosen_id-valid fresh request.supplied fresh_id) in
      (
        chosen_id fresh request.supplied,
        rw run,
        v.0,
        v.1,
        v.2,
        chosen_id-supplied fresh request.supplied,
      )

  -- the status in the log: that of the response, or 500 for an exception
  abbrev pub logged_status : Result E Response → ℕ
  logged_status (ok r) = r.status_code
  logged_status (err x) = 500

  -- Whether the handler returns or raises, dispatch restores the request id of the context and
  -- adds exactly one log record, with the method, the path, and the status of the response or
  -- 500.
  pub dispatch_finally :
      (result : Result E Response) (log : List LogRecord)
      → call_next inside ≡ (result, log)
      → ((dispatch fresh request call_next c).1.request_id ≡ c.request_id)
        × ((dispatch fresh request call_next c).1.log
            ≡ log
              ++ record {
                method = request.method;
                path = request.path;
                status_code = logged_status result;
              }
                ∷ [])
  unfolding dispatch
  dispatch_finally (ok r) log run = (rw run, rw run)
  dispatch_finally (err x) log run = (rw run, rw run)
