-- ===== src/Runtime/App.antt =====
-- runtime/runtime_app/main.py: the life of the application and its endpoints. pydantic's trimming of a
-- text is a parameter.
use Prim.Native.String.{count}
use kernexys.Prelude.{
  ℕ, String, Bool, true, false, ◌&&◌, Option, none, some, Result, ok, err, ◌==◌, leb, if◌then◌else◌,
}
use kernexys.Json.{Json, str, obj, end, field}
use kernexys.Runtime.Config.{Settings}
use kernexys.Runtime.Classifier.{Floats, SentimentClassifier, Prediction, new_classifier, predict}

-- application.state
pub record State : Type 0 where
  pub ready : Bool
  pub classifier : Option SentimentClassifier

abbrev pub created : State
created = record { ready = false; classifier = none }

abbrev pub with_classifier : Result String SentimentClassifier → Result String State
with_classifier (err e) = err e
with_classifier (ok c) = ok (record { ready = true; classifier = some c })

-- lifespan up to its yield, or the text of a ValueError
unfoldable pub startup : Settings → State → Result String State
unfolding new_classifier
startup settings state = with_classifier (new_classifier settings.model_version)

-- the `finally` block of lifespan
unfoldable pub shutdown : State → State
shutdown state = record state { ready = false }

pub data Reply (Double : Type 0) : Type 0 where
  -- the model, its version, and of a prediction its label, its confidence and the request's id
  ready : String → String → Reply Double
  inferred : String → String → String → Double → String → Reply Double
  http_exception : ℕ → String → Reply Double
  validation_error : String → Reply Double
  -- an exception that no handler of the application takes
  uncaught : Reply Double

-- BoundedText
unfoldable pub bounded_text : (String → String) → String → Option String
bounded_text trim text =
    let stripped : String = trim text in
    if leb 1 (count stripped) && leb (count stripped) 4096 then some stripped else none

-- InferRequest: an object with the field `text` and no other
unfoldable pub infer_request : (String → String) → Json → Option String
unfolding bounded_text
infer_request trim (obj (field name (str text) end)) =
    if name == "text" then bounded_text trim text else none
infer_request trim other = none

-- GET /health/ready, whose reply holds no number
unfoldable pub readiness : Settings → State → Reply ⊥
readiness settings state =
    if state.ready
    then Reply.ready settings.model_name settings.model_version
    else Reply.http_exception 503 "model runtime is not ready"

module _ (f : Floats) (lower trim : String → String) (settings : Settings)
    (request_id : String) where
  abbrev pub response : Option (Prediction f.Double) → Reply f.Double
  response none = Reply.uncaught
  response (some p) =
      Reply.inferred settings.model_name settings.model_version p.label p.confidence request_id

  -- request.app.state.classifier.predict(...), which has no classifier before the start
  abbrev pub predicted : String → Option SentimentClassifier → Reply f.Double
  predicted text none = Reply.uncaught
  predicted text (some c) = response (predict f lower c text)

  abbrev pub answered : State → Option String → Reply f.Double
  answered state none = Reply.validation_error request_id
  answered state (some text) =
      if state.ready
      then predicted text state.classifier
      else Reply.http_exception 503 "model runtime is not ready"

  -- POST /v1/infer: the body is validated before the handler runs
  unfoldable pub infer : Json → State → Reply f.Double
  unfolding infer_request
  infer payload state = answered state (infer_request trim payload)
