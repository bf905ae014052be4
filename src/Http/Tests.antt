-- ===== src/Http/Tests.antt =====
-- The theorems on concrete requests, and Python's int on header values.
use kernexys.Prelude.{
  ℕ, String, ◌≡◌, ◌≤◌, refl, true, false, none, some, List, [], ◌∷◌, ◌++◌, arith, Result, ok, err,
  any, length, negsuc,
}
use kernexys.Http.{Message, disconnect, request, Scope}
use kernexys.Http.Integer.{int}
use kernexys.Http.Limit.{forwarded, rejected, content_length, header}
use kernexys.Http.Replay.{replay, raw, app_limit, replaying, runtime_limit}
use kernexys.Http.Bounded.{IsRequest, IsOverrun, last, part}
use kernexys.Http.Forwarding.{
  reads, runtime_reads, reads_disconnect, length_passes, app_limit_fits, app_limit-IsOverrun,
  runtime_never_disconnects,
}
use kernexys.Http.RequestId.{
  Response, Request, Context, LogRecord, dispatch, is_request_id, is_id_char, header_or_empty,
}
use kernexys.Http.Correlation.{IsPrintable, dispatch_id, dispatch_finally}
use kernexys.Http.Inference.{RuntimeMetrics, Process, dispatch as runtime_dispatch, dispatch_counts}

int_signed : int (b' ' ∷ b'-' ∷ b'1' ∷ b'_' ∷ b'2' ∷ b'\n' ∷ []) ≡ some (negsuc 11)
unfolding int
int_signed = refl

int_refused : int (b'1' ∷ b'_' ∷ b'_' ∷ b'2' ∷ []) ≡ none
unfolding int
int_refused = refl

abbrev chunked : Scope
chunked = record { kind = "http"; headers = [] }

abbrev announced : Scope
announced = record { kind = "http"; headers = (content_length, b'9' ∷ []) ∷ [] }

-- two bytes, then one more
abbrev body : List Message
body = request (some (1 ∷ 2 ∷ [])) (some true) ∷ request (some (3 ∷ [])) none ∷ []

body-IsRequest : IsRequest body
body-IsRequest = part (some (1 ∷ 2 ∷ [])) (some true) refl (last (some (3 ∷ [])) none refl)

chunked_passes : (n : ℕ) → length_passes n chunked ≡ false
unfolding header
chunked_passes n = refl

announced_over : length_passes 3 announced ≡ true
unfolding header int
announced_over = refl

app_limit_fits_example :
    (app_limit 3 chunked (body ++ disconnect ∷ []) ≡ forwarded (replay body (disconnect ∷ [])))
    × (reads 4 (replay body (disconnect ∷ [])) ≡ reads 4 (raw (body ++ disconnect ∷ [])))
app_limit_fits_example =
    app_limit_fits 3 chunked refl body (disconnect ∷ []) 4 (chunked_passes 3) body-IsRequest
      (omega arith)

app_limit-IsOverrun_example :
    (front : List Message) × (final : Message) × (later : List Message) × (app_limit 2 chunked
        (body ++ disconnect ∷ [])
      ≡ rejected (replay (front ++ final ∷ []) later))
    × IsOverrun 2 (body ++ disconnect ∷ []) front final later
app_limit-IsOverrun_example =
    app_limit-IsOverrun 2 chunked refl body (disconnect ∷ []) (chunked_passes 2) body-IsRequest
      (omega arith)

runtime_never_disconnects_example :
    (runtime_limit 3 chunked (body ++ disconnect ∷ []) ≡ forwarded (replaying body))
    × (any reads_disconnect (runtime_reads 9 (replaying body)) ≡ false)
runtime_never_disconnects_example =
    runtime_never_disconnects 3 chunked body (disconnect ∷ []) 9 refl (chunked_passes 3)
      body-IsRequest (omega arith) refl

abbrev inference : Request
inference = record {
  method = "POST";
  path = "/v1/infer";
  supplied = some (b'r' ∷ b'-' ∷ b'1' ∷ []);
}

abbrev fresh : List ℕ
fresh = b'f' ∷ b'0' ∷ []

abbrev missing : Response
missing = record { status_code = 404; request_id = none }

abbrev context : Context
context = record { request_id = none; log = [] }

-- a handler that logs nothing
abbrev answers : Context → Result String Response × List LogRecord
answers c = (ok missing, c.log)

abbrev fails : Context → Result String Response × List LogRecord
fails c = (err "boom", c.log)

fresh_id : is_request_id fresh ≡ true
unfolding is_request_id is_id_char
fresh_id = refl

dispatch_id_example :
    (id : List ℕ) × ((dispatch fresh inference answers context).0
      ≡ ok (record { status_code = 404; request_id = some id }))
    × IsPrintable id
    × (1 ≤ length id)
    × (length id ≤ 128)
    × (is_request_id (header_or_empty inference.supplied) ≡ true
        → id ≡ header_or_empty inference.supplied)
dispatch_id_example = dispatch_id fresh inference answers context missing [] fresh_id refl

dispatch_finally_example :
    ((dispatch fresh inference fails context).1.request_id ≡ none)
    × ((dispatch fresh inference fails context).1.log
        ≡ record { method = "POST"; path = "/v1/infer"; status_code = 500 } ∷ [])
dispatch_finally_example = dispatch_finally fresh inference fails context (err "boom") [] refl

abbrev counters : RuntimeMetrics
counters = record { success = 1; error = 2; observed = 3 }

abbrev process : Process
process = record { request_id = []; metrics = counters }

abbrev refuses : Process → Result String Response × RuntimeMetrics
refuses p = (ok missing, p.metrics)

dispatch_counts_example :
    ((runtime_dispatch fresh inference refuses process).1.request_id ≡ [])
    × ((runtime_dispatch fresh inference refuses process).1.metrics
        ≡ record { success = 1; error = 3; observed = 4 })
dispatch_counts_example = dispatch_counts fresh inference refuses process (ok missing) counters refl
