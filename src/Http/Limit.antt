-- ===== src/Http/Limit.antt =====
-- RequestBodyLimitMiddleware: the body of a request is read up to its end or to the limit before the
-- application is called, and the application reads the same messages again.
use kernexys.Prelude.{
  ℕ, ◌+◌, Bool, true, false, Option, none, some, List, [], ◌∷◌, ◌++◌, ◌==◌, ltb, eqb, ◌&&◌,
  if◌then◌else◌, length, ℤ, pos, negsuc,
}
use kernexys.Http.{Message, disconnect, request, Scope}
use kernexys.Http.Integer.{int}

-- How the middleware ends; `R` is the receive callable that it hands on.
pub data Outcome (R : Type 0) : Type 0 where
  -- the application is called
  forwarded : R → Outcome R
  -- 413 request_too_large
  rejected : R → Outcome R
  -- the server has no further message yet
  waiting : Outcome R

same_bytes : List ℕ → List ℕ → Bool
same_bytes [] [] = true
same_bytes (a ∷ s) (b ∷ t) = eqb a b && same_bytes s t
same_bytes [] (b ∷ t) = false
same_bytes (a ∷ s) [] = false

-- _header
unfoldable pub header : List (List ℕ × List ℕ) → List ℕ → Option (List ℕ)
unfolding same_bytes
header [] name = none
header ((header_name, value) ∷ rest) name =
    if same_bytes header_name name then some value else header rest name

-- len(message.get("body", b""))
abbrev pub body_size : Option (List ℕ) → ℕ
body_size none = 0
body_size (some body) = length body

-- message.get("more_body", False)
abbrev pub more : Option Bool → Bool
more none = false
more (some b) = b

module _ {R : Type 0} (replay : List Message → List Message → R) (max_bytes : ℕ) where
  -- the while loop, over the messages that the server delivers
  unfoldable pub buffer : ℕ → List Message → List Message → Outcome R
  buffer total buffered [] = waiting
  buffer total buffered (disconnect ∷ rest) = forwarded (replay (buffered ++ disconnect ∷ []) rest)
  buffer total buffered (request body more_body ∷ rest) =
      let messages : List Message = buffered ++ request body more_body ∷ [] in
      let next : Outcome R = buffer (total + body_size body) messages rest in
      if ltb max_bytes (total + body_size body)
      then rejected (replay messages rest)
      else if more more_body
      then next
      else forwarded (replay messages rest)

-- int(content_length) > self.max_bytes, where a ValueError counts as no header
abbrev pub exceeds : ℕ → Option ℤ → Bool
exceeds max_bytes none = false
exceeds max_bytes (some (pos n)) = ltb max_bytes n
exceeds max_bytes (some (negsuc n)) = false

abbrev pub declared : Option (List ℕ) → Option ℤ
declared none = none
declared (some value) = int value

-- b"content-length"
abbrev pub content_length : List ℕ
content_length =
    b'c' ∷ b'o' ∷ b'n' ∷ b't' ∷ b'e' ∷ b'n' ∷ b't' ∷ b'-' ∷ b'l' ∷ b'e' ∷ b'n' ∷ b'g' ∷ b't' ∷ b'h'
    ∷ []

-- __call__; `raw` is the server's own receive
unfoldable pub limit :
    {R : Type 0} (raw : List Message → R) (replay : List Message → List Message → R)
    → ℕ
    → Scope
    → List Message
    → Outcome R
unfolding buffer header
limit raw replay max_bytes scope messages =
    if scope.kind == "http"
    then (if exceeds max_bytes (declared (header scope.headers content_length))
        then rejected (raw messages)
        else buffer replay max_bytes 0 [] messages)
    else forwarded (raw messages)
