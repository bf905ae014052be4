-- ===== src/Http/Forwarding.antt =====
-- What the two services read of a request behind the body limit.
use kernexys.Prelude.{
  ℕ, zero, suc, ◌≤◌, ◌<◌, ◌≡◌, refl, ap, Bool, true, false, Option, none, some, List, [], ◌∷◌, ◌++◌,
  ◌==◌, any, arith,
}
use kernexys.Http.{Message, disconnect, request, Scope}
use kernexys.Http.Limit.{forwarded, rejected, exceeds, declared, header, content_length}
use kernexys.Http.Bounded.{IsRequest, IsOverrun, total_size, buffer_fits, buffer-IsOverrun}
use kernexys.Http.Replay.{
  Receive, replay, raw, receive, app_limit, RuntimeReceive, replaying, runtime_replay,
  runtime_receive, runtime_limit,
}

-- The first n calls of receive.
pub reads : ℕ → Receive → List (Option Message)
reads zero r = []
reads (suc n) r = let (m, r') = receive r in m ∷ reads n r'

pub runtime_reads : ℕ → RuntimeReceive → List (Option Message)
runtime_reads zero r = []
runtime_reads (suc n) r = let (m, r') = runtime_receive r in m ∷ runtime_reads n r'

abbrev pub is_http : Scope → Bool
is_http scope = scope.kind == "http"

-- The declared length alone does not reject.
abbrev pub length_passes : ℕ → Scope → Bool
length_passes max_bytes scope = exceeds max_bytes (declared (header scope.headers content_length))

-- The application cannot tell the replay from the server's own receive.
reads-replay :
    (n : ℕ) (ms rest : List Message) → reads n (replay ms rest) ≡ reads n (raw (ms ++ rest))
unfolding reads receive replay raw
reads-replay zero ms rest = refl
reads-replay (suc n) [] [] = refl
reads-replay (suc n) [] (m ∷ rest) = refl
reads-replay (suc n) (m ∷ ms) rest = ap (◌∷◌ (some m)) (reads-replay n ms rest)

module _ (max_bytes : ℕ) (scope : Scope) (http : is_http scope ≡ true) where
  -- For an HTTP scope whose declared length does not pass the limit: a whole request whose
  -- bodies fit is forwarded, and any number of reads by the application give what the server
  -- itself would have delivered, the messages after the request included.
  pub app_limit_fits :
      (ms rest : List Message) (n : ℕ)
      → length_passes max_bytes scope ≡ false
      → IsRequest ms
      → total_size ms ≤ max_bytes
      → (app_limit max_bytes scope (ms ++ rest) ≡ forwarded (replay ms rest))
        × (reads n (replay ms rest) ≡ reads n (raw (ms ++ rest)))
  unfolding app_limit
  app_limit_fits ms rest n passes r fits = (
    rw (http, passes) (buffer_fits replay max_bytes rest [] 0 r (omega arith)),
    reads-replay n ms rest,
  )

  -- For an HTTP scope whose declared length does not pass the limit: a whole request whose
  -- bodies exceed it is rejected at a message where the bytes read before still fit and with it
  -- pass the limit, the later messages left unread.
  pub app_limit-IsOverrun :
      (ms rest : List Message)
      → length_passes max_bytes scope ≡ false
      → IsRequest ms
      → max_bytes < total_size ms
      → (front : List Message) × (final : Message) × (later : List Message) × (app_limit max_bytes
            scope
            (ms ++ rest)
          ≡ rejected (replay (front ++ final ∷ []) later))
        × IsOverrun max_bytes (ms ++ rest) front final later
  unfolding app_limit
  app_limit-IsOverrun ms rest passes r over =
      rw (http, passes) (buffer-IsOverrun replay max_bytes rest [] r (omega arith) (omega arith))

  -- For an HTTP scope whose content-length header is an integer above the limit, the request is
  -- rejected before any message is read.
  pub app_limit_declared :
      (ms : List Message)
      → length_passes max_bytes scope ≡ true
      → app_limit max_bytes scope ms ≡ rejected (raw ms)
  unfolding app_limit
  app_limit_declared ms over = rw (http, over)

abbrev pub is_disconnect : Message → Bool
is_disconnect disconnect = true
is_disconnect (request body m) = false

abbrev pub reads_disconnect : Option Message → Bool
reads_disconnect none = false
reads_disconnect (some m) = is_disconnect m

runtime_reads-disconnect :
    (n : ℕ) (ms : List Message)
    → any is_disconnect ms ≡ false
    → any reads_disconnect (runtime_reads n (replaying ms)) ≡ false
unfolding runtime_reads runtime_receive
runtime_reads-disconnect zero ms h = refl
runtime_reads-disconnect (suc n) [] h = runtime_reads-disconnect n [] refl
runtime_reads-disconnect (suc n) (request body m ∷ ms) h = runtime_reads-disconnect n ms h
runtime_reads-disconnect (suc n) (disconnect ∷ ms) h = ground arith

-- In the runtime, for an HTTP scope whose declared length does not pass the limit and a whole
-- request that fits and has no disconnect, the request is forwarded, and no number of reads by
-- the application ever returns a disconnect, whatever the server delivers later.
pub runtime_never_disconnects :
    (max_bytes : ℕ) (scope : Scope) (ms rest : List Message) (n : ℕ)
    → is_http scope ≡ true
    → length_passes max_bytes scope ≡ false
    → IsRequest ms
    → total_size ms ≤ max_bytes
    → any is_disconnect ms ≡ false
    → (runtime_limit max_bytes scope (ms ++ rest) ≡ forwarded (replaying ms))
      × (any reads_disconnect (runtime_reads n (replaying ms)) ≡ false)
unfolding runtime_limit runtime_replay
runtime_never_disconnects max_bytes scope ms rest n http passes r fits quiet = (
  rw (http, passes) (buffer_fits runtime_replay max_bytes rest [] 0 r (omega arith)),
  runtime_reads-disconnect n ms quiet,
)
