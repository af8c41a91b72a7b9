-- ===== src/Auth/Mfa.antt =====
-- auth/mfa/[action]/route.ts
pub mod Laws
use enterprise_crm.Common.{
  String, ◌<>◌, Bool, true, false, Option, none, some, List, [], ◌∷◌, ◌==◌, ◌||◌, eqb,
  if◌then◌else◌,
}
use enterprise_crm.Http.{
  Json, Method, Payload, json, RequestInit, Response, is_ok, Request, Server, Body, empty,
  NextResponse, Result, ok, throw, M, ◌>>=◌, pure, lift, catch, reply, detail, json_response,
  backend_request_error,
}
use enterprise_crm.Http.Headers
use enterprise_crm.Session.Backend.{
  read_json_safely, backend_error_response, response_from_backend_error,
}
use enterprise_crm.Session.Csrf.{require_csrf_protection}
use enterprise_crm.Session.Cookies.{clear_authentication_cookies}
use enterprise_crm.Session.Refresh.{
  AuthenticatedBackendResult, authenticated_backend_request, json_headers,
}
use enterprise_crm.Proxy.{with_session_changes}

unfoldable pub is_allowed_action : String → Bool
is_allowed_action action = action == "setup" || action == "confirm" || action == "disable"

-- `new NextResponse(null, { status: 204 })`
abbrev pub no_content : NextResponse
no_content = record { status = 204; headers = []; body = empty; cookies = [] }

unfoldable pub mfa_response : Response → Result NextResponse
mfa_response r =
    if is_ok r
    then (if eqb r.status 204 then ok no_content else json_response (read_json_safely r) r.status)
    else response_from_backend_error r (read_json_safely r)

abbrev pub clear_if : Bool → NextResponse → NextResponse
clear_if true response = clear_authentication_cookies response
clear_if false response = response

-- From `if (!result.response)` on.
unfoldable pub mfa_result :
    Server → AuthenticatedBackendResult → Option Response → Result NextResponse
unfolding mfa_response
mfa_result server result none =
    ok (clear_if result.should_clear_session (reply (detail "Authentication required") 401))
mfa_result server result (some r) = with_session_changes server result (mfa_response r)

-- `body ? { "Content-Type": … } : undefined`; the text of a JSON value is never empty.
abbrev headers_for : Option Json → Headers.Headers
headers_for none = []
headers_for (some payload) = json_headers

abbrev payload_of : Option Json → Option Payload
payload_of none = none
payload_of (some j) = some (json j)

unfoldable pub send_mfa : Server → Request → String → Option Json → M NextResponse
unfolding mfa_result
send_mfa server request action payload =
    authenticated_backend_request server request.cookies ("/auth/mfa/" <> action)
      (record { method = Method.post; headers = headers_for payload; body = payload_of payload })
    >>= λ result. lift (mfa_result server result result.response)

-- An action whose body is sent along.
unfoldable pub mfa_other : Server → Request → String → Option Json → M NextResponse
unfolding send_mfa
mfa_other server request action none = pure (reply (detail "Invalid MFA request") 400)
mfa_other server request action (some payload) =
    catch (send_mfa server request action (some payload)) backend_error_response

-- From `let body` on.
unfoldable pub mfa_action : Server → Request → String → M NextResponse
unfolding mfa_other
mfa_action server request action =
    if action == "setup"
    then catch (send_mfa server request action none) backend_error_response
    else mfa_other server request action request.parsed

unfoldable pub mfa : Server → Request → String → M NextResponse
unfolding mfa_action is_allowed_action
mfa server request action = elim (require_csrf_protection server request true) [
  | some failure ↦ pure failure
  | none ↦
      if is_allowed_action action
      then mfa_action server request action
      else pure (reply (detail "Unsupported MFA action") 404)
]
