-- ===== src/Logging.antt =====
-- app/logging_config.py and app/observability.py: the JSON object of a log record. Texts that the logging
-- module makes are fields of the record; json.dumps is left to the caller.
pub mod Extras
mod Tests
use kernexys.Prelude.{
  String, Bool, true, false, not, ◌&&◌, ◌||◌, Option, none, some, List, [], ◌∷◌, ◌==◌,
  if◌then◌else◌,
}
use kernexys.Prelude.Dict.{Dict, lookup}
use kernexys.Json.{Json, str, null}

-- d[key] = value
abbrev pub assign : String → Json → Dict Json → Dict Json
assign k v [] = (k, v) ∷ []
assign k v ((j, w) ∷ d) =
    let rest : Dict Json = assign k v d in if j == k then (j, v) ∷ d else (j, w) ∷ rest

-- d.update(other)
abbrev pub update : Dict Json → Dict Json → Dict Json
update d [] = d
update d ((k, v) ∷ other) = update (assign k v d) other

pub record LogRecord : Type 0 where
  pub levelname : String
  pub name : String
  -- record.getMessage()
  pub message : String
  -- the formatted time, and the formatted exception if there is one
  pub time : String
  pub exception : Option String
  -- record.__dict__
  pub attributes : Dict Json

abbrev pub head : LogRecord → Dict Json
head record_ =
    ("timestamp", str record_.time)
    ∷ ("level", str record_.levelname)
    ∷ ("logger", str record_.name)
    ∷ ("message", str record_.message)
    ∷ []

-- if request_id: payload["request_id"] = request_id
abbrev pub with_request_id : Option String → Dict Json → Dict Json
with_request_id none payload = payload
with_request_id (some id) payload =
    if id == "" then payload else assign "request_id" (str id) payload

abbrev pub with_exception : Option String → Dict Json → Dict Json
with_exception none payload = payload
with_exception (some text) payload = assign "exception" (str text) payload

-- the loop over record.__dict__; `is_standard` says whether an empty record has the attribute
unfoldable pub with_extras : (String → Bool) → Dict Json → Dict Json → Dict Json
with_extras is_standard [] payload = payload
with_extras is_standard ((key, value) ∷ attributes) payload =
    let next : Dict Json =
      if not (is_standard key) && not (key == "message" || key == "asctime")
      then assign key value payload
      else payload in
    with_extras is_standard attributes next

-- JsonFormatter.format before json.dumps
unfoldable pub json_payload : (String → Bool) → Option String → LogRecord → Dict Json
unfolding with_extras
json_payload is_standard request_id record_ =
    with_exception record_.exception
      (with_extras is_standard record_.attributes (with_request_id request_id (head record_)))

-- record.extra_fields, if there is one
abbrev pub with_extra_fields : Option (Dict Json) → Dict Json → Dict Json
with_extra_fields none log_obj = log_obj
with_extra_fields (some fields) log_obj = update log_obj fields

-- StructuredFormatter.format before json.dumps
unfoldable pub structured_payload : String → Option (Dict Json) → LogRecord → Dict Json
structured_payload correlation_id extra_fields record_ =
    with_extra_fields extra_fields (
      with_exception record_.exception
        (assign "correlation_id" (str correlation_id) (head record_)))

-- the caller's `extra`: its dict under "extra_fields", and its other entries in order
pub record Extra : Type 0 where
  pub extra_fields : Dict Json
  pub entries : Dict Json

-- `if extra` is false for an empty one, which adds nothing.
abbrev pub with_extra : Option Extra → Dict Json → Dict Json
with_extra none fields = fields
with_extra (some extra) fields = update (update fields extra.extra_fields) extra.entries

-- the extra_fields that ContextAwareLogger._log hands on
unfoldable pub log_fields : String → Option Extra → Dict Json
log_fields correlation_id extra = with_extra extra (("correlation_id", str correlation_id) ∷ [])
