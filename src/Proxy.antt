-- ===== src/Proxy.antt =====
-- frontend/src/app/api/proxy.ts: one request, forwarded to a fixed path of the back end.
pub mod Filter
pub mod Changes
pub mod Faithful
pub mod Answers
pub mod Lost
use enterprise_crm.Common.{
  ℕ, String, ◌<>◌, Bool, true, false, Option, none, some, List, [], ◌∷◌, ◌==◌, ◌||◌, leb, eqb,
  if◌then◌else◌,
}
use enterprise_crm.Http.{
  Method, Payload, text, RequestInit, Response, Request, Url, Server, truthy, Body, empty, bytes,
  NextResponse, Thrown, other_error, Result, ok, throw, M, ◌>>=◌, pure, raise, lift, or_throw,
  catch, reply, detail, is_null_body_status,
}
use enterprise_crm.Http.Headers
use enterprise_crm.Session.Backend.{
  BackendTokenResponse, read_json_safely, backend_error_response, response_from_backend_error,
}
use enterprise_crm.Session.Csrf.{require_csrf_protection}
use enterprise_crm.Session.Cookies.{set_authentication_cookies, clear_authentication_cookies}
use enterprise_crm.Session.Refresh.{AuthenticatedBackendResult, authenticated_backend_request}

-- `const value = from.get(name); if (value) to.set(name, value);`
unfoldable pub copy_header : String → Headers.Headers → Headers.Headers → Headers.Headers
copy_header name from to = elim (truthy (Headers.get name from)) [
  | none ↦ to
  | some value ↦ Headers.set name value to
]

unfoldable pub response_headers : Headers.Headers → Headers.Headers
unfolding copy_header
response_headers from = copy_header "content-length" from (
    copy_header "content-disposition" from (
      copy_header "content-type" from
        (("cache-control", "no-store") ∷ ("x-content-type-options", "nosniff") ∷ [])))

abbrev pub set_refreshed :
    Server → NextResponse → Option BackendTokenResponse → Option String → NextResponse
set_refreshed server response none csrf_token = response
set_refreshed server response (some tokens) csrf_token =
    set_authentication_cookies server response tokens csrf_token

unfoldable pub apply_session_changes :
    Server → NextResponse → AuthenticatedBackendResult → NextResponse
apply_session_changes server response result =
    if result.should_clear_session
    then clear_authentication_cookies response
    else set_refreshed server response result.refreshed_tokens result.csrf_token

-- The error response for an answer from 500 on.
abbrev pub with_session_changes :
    Server → AuthenticatedBackendResult → Result NextResponse → Result NextResponse
with_session_changes server result (throw e) = throw e
with_session_changes server result (ok response) = ok (apply_session_changes server response result)

-- `arrayBuffer()` throws where the answer's body breaks off.
unfoldable pub pass_body : Response → Option String → Result NextResponse
pass_body r none = throw other_error
pass_body r (some b) = ok (record {
  status = r.status;
  headers = response_headers r.headers;
  body = bytes b;
  cookies = [];
})

-- The answer below 500.
unfoldable pub proxied : Response → Result NextResponse
unfolding pass_body
proxied r =
    if is_null_body_status r.status
    then ok (record {
      status = r.status;
      headers = Headers.delete "content-length" (response_headers r.headers);
      body = empty;
      cookies = [];
    })
    else pass_body r r.bytes

-- From `if (!result.response)` on.
unfoldable pub respond_to :
    Server → AuthenticatedBackendResult → Option Response → Result NextResponse
respond_to server result none =
    ok (apply_session_changes server (reply (detail "Authentication required") 401) result)
respond_to server result (some r) =
    if leb 500 r.status
    then with_session_changes server result (response_from_backend_error r (read_json_safely r))
    else with_session_changes server result (proxied r)

unfoldable pub respond : Server → AuthenticatedBackendResult → Result NextResponse
unfolding respond_to
respond server result = respond_to server result result.response

abbrev pub has_body : Method → Bool
has_body Method.get = false
has_body Method.head = false
has_body _ = true

-- `body && body.byteLength > 0 ? body : undefined`
abbrev pub body_of : String → Option Payload
body_of b = if b == "" then none else some (text b)

abbrev body_or_throw : Option String → Result (Option Payload)
body_or_throw none = throw other_error
body_or_throw (some b) = ok (body_of b)

-- `hasBody ? await request.arrayBuffer() : undefined`
unfoldable pub read_body : Request → Result (Option Payload)
read_body request = if has_body request.method then body_or_throw request.bytes else ok none

abbrev pub forward_init : Request → Option Payload → RequestInit
forward_init request body = record {
  method = request.method;
  headers = copy_header "content-type" request.headers [];
  body = body;
}

unfoldable pub forward : Server → String → Request → M NextResponse
unfolding read_body respond
forward server path request = do
  body ← lift (read_body request)
  url ← lift (or_throw (server.parse_url request.url) other_error)
  result ←
      authenticated_backend_request server request.cookies (path <> url.search)
        (forward_init request body)
  lift (respond server result)

unfoldable pub proxy_api_request : Server → String → Request → M NextResponse
unfolding forward
proxy_api_request server path request = elim (require_csrf_protection server request true) [
  | some failure ↦ pure failure
  | none ↦ catch (forward server path request) backend_error_response
]
