-- ===== src/Client.antt =====
-- frontend/src/services/api-client.ts: how the browser calls the BFF.
pub mod Messages
pub mod Errors
pub mod Laws
pub mod Tokens
pub mod Methods
use enterprise_crm.Common.{
  ℕ, String, ◌<>◌, Bool, true, false, not, Option, none, some, List, [], ◌∷◌, or_else, is_some, eqb,
  ◌==◌, ◌&&◌, ◌||◌, if◌then◌else◌,
}
use Prim.Native.Char.{Char, code}
use enterprise_crm.Http.{Method, Payload, text, json, Response, is_ok, truthy}
use enterprise_crm.Http.Headers
use enterprise_crm.Session.Config.{csrf_token_cookie, drop_last_slash}
use enterprise_crm.Client.Messages.{
  Value, undefined, read_response_body, error_text, default_error_message,
}

pub data FormValue : Type 0 where
  form_text : String → FormValue
  form_file : String → String → FormValue

pub data ClientBody : Type 0 where
  payload : Payload → ClientBody
  form_data : List (String × FormValue) → ClientBody

-- `ApiRequestOptions`, as far as the services use it.
pub record ApiRequestOptions : Type 0 where
  pub method : Option Method
  pub headers : Headers.Headers
  pub body : Option ClientBody
  pub cache : Option String

-- The argument of the browser's `fetch`, beside `credentials: "same-origin"`.
pub record ClientCall : Type 0 where
  pub url : String
  pub method : Method
  pub headers : Headers.Headers
  pub body : Option ClientBody
  pub cache : Option String

-- What the client finds in the browser: the base URL of the build, the text of `document.cookie` if
-- there is a document, `decodeURIComponent`, and a `fetch` that answers or rejects.
pub record Browser : Type 0 where
  pub api_base_url : Option String
  pub document_cookie : Option String
  pub decode_uri_component : String → Option String
  pub fetch : ClientCall → Option Response

unfoldable pub get_api_base_url : Browser → String
unfolding drop_last_slash
get_api_base_url browser = drop_last_slash (or_else browser.api_base_url "/api")

abbrev push : Char → List String → List String
push c [] = String.◌∷◌ c String.[] ∷ []
push c (entry ∷ entries) = String.◌∷◌ c entry ∷ entries

-- `.split("; ")`
unfoldable pub split_entries : String → List String
split_entries String.[] = String.[] ∷ []
split_entries (String.◌∷◌ c String.[]) = String.◌∷◌ c String.[] ∷ []
split_entries (String.◌∷◌ c (String.◌∷◌ d s)) = elim (eqb (code c) b';' && eqb (code d) b' ') [
  | true ↦ String.[] ∷ split_entries s
  | false ↦ push c (split_entries (String.◌∷◌ d s))
]

-- What follows the prefix, if the text starts with it.
unfoldable pub after_prefix : String → String → Option String
after_prefix String.[] s = some s
after_prefix (String.◌∷◌ c prefix) String.[] = none
after_prefix (String.◌∷◌ c prefix) (String.◌∷◌ d s) = elim (eqb (code c) (code d)) [
  | true ↦ after_prefix prefix s
  | false ↦ none
]

-- `.find((entry) => entry.startsWith(prefix))`, sliced after the prefix.
unfoldable pub find_entry : String → List String → Option String
unfolding after_prefix
find_entry prefix [] = none
find_entry prefix (entry ∷ entries) = elim (after_prefix prefix entry) [
  | some rest ↦ some rest
  | none ↦ find_entry prefix entries
]

abbrev decode_found : Browser → Option String → Option String
decode_found browser none = none
decode_found browser (some found) = browser.decode_uri_component found

unfoldable pub read_cookie : Browser → String → Option String
unfolding split_entries find_entry
read_cookie browser name = elim browser.document_cookie [
  | none ↦ none
  | some cookies ↦ decode_found browser (find_entry (name <> "=") (split_entries cookies))
]

unfoldable pub is_mutating : Method → Bool
is_mutating Method.delete = true
is_mutating Method.patch = true
is_mutating Method.post = true
is_mutating Method.put = true
is_mutating _ = false

-- `options.body && !isFormData`
abbrev has_plain_body : Option ClientBody → Bool
has_plain_body none = false
has_plain_body (some (payload (text s))) = not (s == "")
has_plain_body (some (payload (json j))) = true
has_plain_body (some (form_data entries)) = false

abbrev pub set_content_type : Option ClientBody → Headers.Headers → Headers.Headers
set_content_type body headers =
    if has_plain_body body && not (is_some (Headers.get "content-type" headers))
    then Headers.set "content-type" "application/json" headers
    else headers

abbrev pub set_token : Option String → Headers.Headers → Headers.Headers
set_token none headers = headers
set_token (some token) headers = Headers.set "x-csrf-token" token headers

abbrev pub set_csrf_token : Browser → Method → Headers.Headers → Headers.Headers
set_csrf_token browser method headers =
    if is_mutating method && not (is_some (Headers.get "x-csrf-token" headers))
    then set_token (truthy (read_cookie browser csrf_token_cookie)) headers
    else headers

abbrev pub method_of : ApiRequestOptions → Method
method_of options = or_else options.method Method.get

unfoldable pub request_call : Browser → String → ApiRequestOptions → ClientCall
unfolding get_api_base_url
request_call browser path options = record {
  url = get_api_base_url browser <> path;
  method = method_of options;
  headers =
      set_csrf_token browser (method_of options)
        (set_content_type options.body (Headers.set "accept" "application/json" options.headers));
  body = options.body;
  cache = options.cache;
}

-- A promise of the client: its value, or an `ApiError` with message, status and details.
pub data ApiResult (A : Type 0) : Type 0 where
  resolved : A → ApiResult A
  api_error : String → ℕ → Value → ApiResult A

unfoldable pub parse_response : Response → ApiResult Value
unfolding read_response_body
parse_response r =
    if eqb r.status 204 || eqb r.status 205
    then resolved undefined
    else let body = read_response_body r in
      if is_ok r then resolved body else api_error (error_text body r.status) r.status body

unfoldable pub settle_request : Option Response → ApiResult Value
unfolding parse_response
settle_request none = api_error (default_error_message 0) 0 undefined
settle_request (some r) = parse_response r

-- `request`
unfoldable pub request : Browser → String → ApiRequestOptions → ApiResult Value
unfolding request_call settle_request
request browser path options = settle_request (browser.fetch (request_call browser path options))

abbrev event_stream_headers : Headers.Headers
event_stream_headers = ("accept", "text/event-stream") ∷ ("content-type", "application/json") ∷ []

unfoldable pub stream_call : Browser → String → Payload → ClientCall
unfolding get_api_base_url
stream_call browser path body = record {
  url = get_api_base_url browser <> path;
  method = Method.post;
  headers = set_token (truthy (read_cookie browser csrf_token_cookie)) event_stream_headers;
  body = some (payload body);
  cache = none;
}

unfoldable pub settle_stream : Option Response → ApiResult Response
settle_stream none = api_error (default_error_message 0) 0 undefined
settle_stream (some r) =
    let body = read_response_body r in
    if is_ok r then resolved r else api_error (error_text body r.status) r.status body

unfoldable pub stream_post : Browser → String → Payload → ApiResult Response
unfolding stream_call settle_stream
stream_post browser path body = settle_stream (browser.fetch (stream_call browser path body))
