-- ===== src/Errors.antt =====
-- app/errors.py: ApiError, and the response that each exception handler builds.
use kernexys.Prelude.{ℕ, String, Option, none, some, ◌==◌, if◌then◌else◌}
use kernexys.Json.{Json, null, str, obj, arr, Items, nil, cons, Fields, end, field, member}

pub record ApiError : Type 0 where
  pub status_code : ℕ
  pub code : String
  pub message : String
  pub details : Option Json

pub record JsonResponse : Type 0 where
  pub status_code : ℕ
  pub content : Json

abbrev pub or_null : Option Json → Json
or_null none = null
or_null (some j) = j

-- request_id_context.get() or ""
abbrev pub or_empty : Option String → String
or_empty none = ""
or_empty (some id) = id

unfoldable pub error_response : Option String → ℕ → String → String → Option Json → JsonResponse
error_response request_id status_code code message details = record {
  status_code = status_code;
  content = obj (
      field "error"
        (obj (
          field "code" (str code) (
            field "message" (str message) (
              field "request_id" (str (or_empty request_id))
                (field "details" (or_null details) end)))))
        end);
}

unfoldable pub handle_api_error : Option String → ApiError → JsonResponse
unfolding error_response
handle_api_error request_id exc =
    error_response request_id exc.status_code exc.code exc.message exc.details

-- normalized[key] = value of a dict that has the key
abbrev pub set_member : String → Json → Fields → Fields
set_member k v end = end
set_member k v (field j w d) = if j == k then field j v d else field j w (set_member k v d)

module _ (to_text : Json → String) where
  -- {key: str(value) for key, value in context.items()}
  abbrev pub texts : Fields → Fields
  texts end = end
  texts (field k v d) = field k (str (to_text v)) (texts d)

  -- the context, when it is a dict that is not empty
  abbrev pub with_context : Option Json → Fields → Fields
  with_context (some (obj (field k v c))) error = set_member "ctx" (obj (texts (field k v c))) error
  with_context other error = error

  unfoldable pub normalize : Fields → Fields
  normalize error = with_context (member "ctx" error) error

  abbrev pub normalized : Items → Items
  normalized nil = nil
  normalized (cons (obj error) rest) = cons (obj (normalize error)) (normalized rest)
  normalized (cons other rest) = cons other (normalized rest)

  unfoldable pub handle_validation_error : Option String → Items → JsonResponse
  unfolding error_response normalize
  handle_validation_error request_id errors =
      error_response request_id 422 "validation_error" "The request did not satisfy the API schema."
        (some (arr (normalized errors)))

-- exc.detail if it is a text
abbrev pub http_message : Json → String
http_message (str s) = s
http_message other = "The request failed."

unfoldable pub handle_http_error : Option String → ℕ → Json → JsonResponse
unfolding error_response
handle_http_error request_id status_code detail =
    error_response request_id status_code "http_error" (http_message detail) (some detail)

unfoldable pub handle_database_error : Option String → JsonResponse
unfolding error_response
handle_database_error request_id =
    error_response request_id 503 "database_unavailable"
      "The model registry database is unavailable." none
