-- ===== src/Session/Backend.antt =====
-- shared.ts: one call of the back end, what is read from its answer, and the error responses.
pub mod Laws
use enterprise_crm.Common.{
  ℕ, String, ◌<>◌, Bool, true, false, not, Option, none, some, List, ◌∷◌, ◌==◌, ◌&&◌, ◌||◌, leb,
  or_else, if◌then◌else◌,
}
use enterprise_crm.Common.Text.{is_blank, includes}
use enterprise_crm.Http.{
  JsNumber, Json, null, bool, num, str, arr, obj, get_field, is_object, RequestInit, Call, Response,
  Server, NextResponse, BackendRequestErrorKind, configuration, invalid_response, timeout,
  unavailable, Thrown, backend_request_error, other_error, Result, ok, throw, M, reply, detail,
  json_response, Fetched, fetched, aborted, failed, fetch,
}
use enterprise_crm.Http.Headers
use enterprise_crm.Session.Config.{backend_url, get_backend_timeout_ms}

-- The `catch` of `backendRequest` looks at the timer only.
abbrev pub settle : Fetched → Result Response
settle (fetched r) = ok r
settle aborted = throw (backend_request_error timeout)
settle failed = throw (backend_request_error unavailable)

abbrev pub accept_json : RequestInit → RequestInit
accept_json init = record init { headers = Headers.set "accept" "application/json" init.headers }

-- The URL is computed inside the `try`: its error is caught as well, before anything is sent.
unfoldable pub send : Server → Result String → RequestInit → M Response
unfolding fetch
send server (throw e) init log = (throw (backend_request_error unavailable), log)
send server (ok url) init log =
    let call : Call = record { url = url; init = accept_json init } in
    (settle (fetch (get_backend_timeout_ms server) (server.answer log call)), call ∷ log)

unfoldable pub backend_request : Server → String → RequestInit → M Response
unfolding send
backend_request server path init = send server (backend_url server path) init

unfoldable pub read_json_safely : Response → Option Json
unfolding includes
read_json_safely r =
    if includes (or_else (Headers.get "content-type" r.headers) "") "application/json"
    then r.parsed
    else none

pub record BackendTokenResponse : Type 0 where
  pub access_token : String
  pub refresh_token : String
  pub expires_in : JsNumber

abbrev tokens_of : Option Json → Option Json → Option Json → Option BackendTokenResponse
tokens_of (some (str a)) (some (str r)) (some (num e)) =
    some (record { access_token = a; refresh_token = r; expires_in = e })
tokens_of _ _ _ = none

-- The type guard, with the value that it guards.
unfoldable pub is_token_response : Option Json → Option BackendTokenResponse
is_token_response none = none
is_token_response (some value) =
    if is_object value
    then tokens_of (get_field "access_token" value) (get_field "refresh_token" value)
        (get_field "expires_in" value)
    else none

abbrev detail_or : Option Json → String → String
detail_or (some (str s)) fallback = if is_blank s then fallback else s
detail_or _ fallback = fallback

unfoldable pub get_error_detail : Option Json → String → String
get_error_detail none fallback = fallback
get_error_detail (some payload) fallback =
    if is_object payload then detail_or (get_field "detail" payload) fallback else fallback

abbrev pub service_unavailable : NextResponse
service_unavailable =
    reply (detail "The CRM service is temporarily unavailable. Please try again.") 502

unfoldable pub backend_error_response : Thrown → NextResponse
backend_error_response (backend_request_error timeout) =
    reply (detail "The CRM service took too long to respond. Please try again.") 504
backend_error_response (backend_request_error _) = service_unavailable
backend_error_response other_error =
    reply (detail "An unexpected error occurred while processing the request.") 500

unfoldable pub response_from_backend_error : Response → Option Json → Result NextResponse
unfolding json_response
response_from_backend_error r payload =
    if leb 500 r.status
    then ok service_unavailable
    else json_response
        (some (detail (get_error_detail payload "The request could not be completed."))) r.status
