-- ===== src/Client/Messages.antt =====
-- api-client.ts: the message of an error, and the content of a response.
use enterprise_crm.Common.{
  ℕ, String, Bool, true, false, Option, none, some, or_else, leb, eqb, ◌==◌, if◌then◌else◌,
}
use enterprise_crm.Common.Text.{trim, includes}
use enterprise_crm.Http.{
  Json, str, arr, obj, Items, nil, cons, Fields, end, field, Response, truthy,
}
use enterprise_crm.Http.Headers

abbrev pub default_error_message : ℕ → String
default_error_message status =
    if eqb status 0
    then "Unable to reach the CRM service. Check your connection and try again."
    else if eqb status 401
    then "Your session has expired. Please sign in again."
    else if eqb status 403
    then "You do not have permission to complete this request."
    else if eqb status 404
    then "The requested resource could not be found."
    else if eqb status 429
    then "Too many requests were made. Please try again shortly."
    else if leb 500 status
    then "The CRM service is temporarily unavailable. Please try again."
    else "The request could not be completed."

-- The first of two messages that is there.
abbrev pub or_else_try : Option String → Option String → Option String
or_else_try none b = b
or_else_try (some a) b = some a

-- `getErrorMessage`, its loop over an array, and its look at one key of an object.
unfoldable mutual
  unfolding trim

  pub get_error_message : Json → Option String
  get_error_message (str s) = truthy (some (trim s))
  get_error_message (arr items) = first_message items
  get_error_message (obj fields) = or_else_try (message_at "detail" fields) (
      or_else_try (message_at "message" fields)
        (or_else_try (message_at "msg" fields) (message_at "error" fields)))
  get_error_message _ = none

  pub first_message : Items → Option String
  first_message nil = none
  first_message (cons item items) = or_else_try (get_error_message item) (first_message items)

  pub message_at : String → Fields → Option String
  message_at key end = none
  message_at key (field k value fields) = elim (k == key) [
    | true ↦ get_error_message value
    | false ↦ message_at key fields
  ]

-- What a response's body is read as.
pub data Value : Type 0 where
  undefined : Value
  json_value : Json → Value
  text_value : String → Value

unfoldable pub is_json_response : Response → Bool
unfolding includes
is_json_response r = includes (or_else (Headers.get "content-type" r.headers) "") "application/json"

abbrev json_or_undefined : Option Json → Value
json_or_undefined none = undefined
json_or_undefined (some j) = json_value j

abbrev text_or_undefined : Option String → Value
text_or_undefined none = undefined
text_or_undefined (some s) = if s == "" then undefined else text_value s

unfoldable pub read_response_body : Response → Value
unfolding is_json_response
read_response_body r =
    if is_json_response r then json_or_undefined r.parsed else text_or_undefined r.bytes

abbrev pub message_of : Value → Option String
message_of undefined = none
message_of (json_value j) = get_error_message j
message_of (text_value s) = get_error_message (str s)

-- `getErrorMessage(body) ?? defaultErrorMessage(response.status)`
abbrev pub error_text : Value → ℕ → String
error_text body status = or_else (message_of body) (default_error_message status)
