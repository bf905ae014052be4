-- ===== src/Logging/Tests.antt =====
-- A record of the request middleware in both formats.
use kernexys.Prelude.{none, some, [], ◌∷◌, ◌==◌, ◌≡◌, refl}
use kernexys.Prelude.Dict.{lookup}
use kernexys.Json.{str, int}
use kernexys.Logging.{LogRecord, Extra, json_payload, structured_payload, log_fields}

abbrev complete : LogRecord
complete = record {
  levelname = "INFO";
  name = "kernexys.http";
  message = "request_complete";
  time = "2026-01-01T00:00:00";
  exception = none;
  attributes = ("name", str "kernexys.http") ∷ ("status_code", int 200) ∷ [];
}

json_extra :
    json_payload (λ key. key == "name") (some "r-1") complete
    ≡ ("timestamp", str "2026-01-01T00:00:00")
      ∷ ("level", str "INFO")
      ∷ ("logger", str "kernexys.http")
      ∷ ("message", str "request_complete")
      ∷ ("request_id", str "r-1")
      ∷ ("status_code", int 200)
      ∷ []
unfolding json_payload
json_extra = refl

-- The structured formatter reads extra_fields only, which a plain logger does not set.
plain_extra_is_lost : lookup "status_code" (structured_payload "c-1" none complete) ≡ none
unfolding structured_payload
plain_extra_is_lost = refl

abbrev extra : Extra
extra = record { extra_fields = []; entries = ("status_code", int 200) ∷ [] }

structured_extra :
    lookup "status_code" (structured_payload "c-1" (some (log_fields "c-1" (some extra))) complete)
    ≡ some (int 200)
unfolding structured_payload log_fields
structured_extra = refl
