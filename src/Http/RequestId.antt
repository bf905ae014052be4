-- ===== src/Http/RequestId.antt =====
-- RequestContextMiddleware of both services: which request id a response carries, and what is
-- logged, counted and left in the context, whether the handler returns or raises.
use kernexys.Prelude.{
  ℕ, String, Bool, true, ◌&&◌, ◌||◌, Option, none, some, List, [], ◌∷◌, ◌++◌, leb, eqb,
  if◌then◌else◌, length, Result, ok, err,
}

-- A character of [A-Za-z0-9._:-]
unfoldable pub is_id_char : ℕ → Bool
is_id_char c =
    (leb b'A' c && leb c b'Z')
    || (leb b'a' c && leb c b'z')
    || (leb b'0' c && leb c b'9')
    || eqb c b'.'
    || eqb c b'_'
    || eqb c b':'
    || eqb c b'-'

abbrev pub all : (ℕ → Bool) → List ℕ → Bool
all p [] = true
all p (c ∷ s) = p c && all p s

-- _REQUEST_ID_PATTERN.fullmatch(supplied): ^[A-Za-z0-9._:-]{1,128}$
unfoldable pub is_request_id : List ℕ → Bool
unfolding is_id_char
is_request_id s = leb 1 (length s) && leb (length s) 128 && all is_id_char s

pub record Response : Type 0 where
  pub status_code : ℕ
  -- the values of the x-request-id header
  pub request_id : Option (List ℕ)

-- The log record "request_complete": what `extra` gives it, without the measured duration_ms.
pub record LogRecord : Type 0 where
  pub method : String
  pub path : String
  pub status_code : ℕ

-- What the middleware shares with the rest of the process.
pub record Context : Type 0 where
  pub request_id : Option (List ℕ)
  pub log : List LogRecord

pub record Request : Type 0 where
  pub method : String
  pub path : String
  -- the x-request-id header, if the client sent one
  pub supplied : Option (List ℕ)

-- request.headers.get("x-request-id", "")
abbrev pub header_or_empty : Option (List ℕ) → List ℕ
header_or_empty none = []
header_or_empty (some s) = s

-- `fresh` is str(uuid4())
unfoldable pub chosen_id : List ℕ → Option (List ℕ) → List ℕ
unfolding is_request_id
chosen_id fresh supplied =
    let s : List ℕ = header_or_empty supplied in if is_request_id s then s else fresh

abbrev pub log_request : ℕ → Request → Context → Context
log_request status request c = record c {
  log = c.log ++ record { method = request.method; path = request.path; status_code = status } ∷ [];
}

abbrev pub reset : Option (List ℕ) → Context → Context
reset token c = record c { request_id = token }

-- The `finally` block, and what leaves it: `E` is what the handler may raise.
abbrev pub complete :
    {E : Type 0}
    → List ℕ
    → Request
    → Option (List ℕ)
    → Result E Response
    → Context
    → Result E Response × Context
complete id request token (ok response) c = (
  ok (record response { request_id = some id }),
  reset token (log_request response.status_code request c),
)
complete id request token (err x) c = (err x, reset token (log_request 500 request c))

-- dispatch of app/middleware.py; the handler may log, and leaves the context's id as it was
unfoldable pub dispatch :
    {E : Type 0}
    → List ℕ
    → Request
    → (Context → Result E Response × List LogRecord)
    → Context
    → Result E Response × Context
unfolding chosen_id
dispatch fresh request call_next c =
    let id : List ℕ = chosen_id fresh request.supplied in
    let inside : Context = record c { request_id = some id } in
    let (result, log) = call_next inside in
    complete id request c.request_id result (record inside { log = log })
