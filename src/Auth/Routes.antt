-- ===== src/Auth/Routes.antt =====
-- auth/me, auth/logout and auth/refresh: the other handlers of a session.
pub mod Laws
pub mod Renewal
use enterprise_crm.Common.{
  String, Bool, true, false, Option, none, some, List, [], ◌∷◌, if◌then◌else◌,
}
use enterprise_crm.Http.{
  bool, str, obj, field, end, Method, json, RequestInit, Response, is_ok, Request, Server, truthy,
  NextResponse, Result, ok, throw, M, ◌>>=◌, pure, lift, catch, reply, detail, json_response,
}
use enterprise_crm.Http.Headers
use enterprise_crm.Session.Config.{refresh_token_cookie}
use enterprise_crm.Session.Backend.{
  BackendTokenResponse, backend_request, read_json_safely, backend_error_response,
  response_from_backend_error,
}
use enterprise_crm.Session.Csrf.{require_csrf_protection}
use enterprise_crm.Session.Cookies.{set_authentication_cookies, clear_authentication_cookies}
use enterprise_crm.Session.Refresh.{
  AuthenticatedBackendResult, authenticated_backend_request, refresh_current_session, refresh_init,
}
use enterprise_crm.Proxy.{with_session_changes}
use enterprise_crm.Auth.Mfa.{no_content, clear_if}

abbrev pub get_init : RequestInit
get_init = record { method = Method.get; headers = []; body = none }

abbrev me_response : Response → Result NextResponse
me_response r =
    if is_ok r
    then json_response (read_json_safely r) r.status
    else response_from_backend_error r (read_json_safely r)

-- From `if (!result.response)` on.
unfoldable pub me_result :
    Server → AuthenticatedBackendResult → Option Response → Result NextResponse
me_result server result none =
    ok (clear_if result.should_clear_session (reply (detail "Authentication required") 401))
me_result server result (some r) = with_session_changes server result (me_response r)

-- auth/me
unfoldable pub me : Server → Request → M NextResponse
unfolding me_result
me server request =
    catch
      (authenticated_backend_request server request.cookies "/auth/me" get_init >>= λ result.
        lift (me_result server result result.response))
      backend_error_response

-- The call of `/auth/logout`, whose outcome is dropped.
unfoldable pub revoke : Server → Option String → M (Unit {0})
revoke server none log = (ok tt, log)
revoke server (some token) log =
    let r = backend_request server "/auth/logout" (refresh_init token) log in (ok tt, r.1)

-- auth/logout
unfoldable pub logout : Server → Request → M NextResponse
unfolding revoke
logout server request = elim (require_csrf_protection server request false) [
  | some failure ↦ pure failure
  | none ↦ revoke server (truthy (Headers.get refresh_token_cookie request.cookies)) >>= λ _.
      pure (clear_authentication_cookies no_content)
]

unfoldable pub refreshed_response :
    Server → Option String → Option BackendTokenResponse → NextResponse
refreshed_response server csrf_token none =
    clear_authentication_cookies (reply (detail "Authentication required") 401)
refreshed_response server csrf_token (some tokens) =
    set_authentication_cookies server (reply (obj (field "refreshed" (bool true) end)) 200) tokens
      csrf_token

-- auth/refresh
unfoldable pub refresh : Server → Request → M NextResponse
unfolding refreshed_response
refresh server request = elim (require_csrf_protection server request true) [
  | some failure ↦ pure failure
  | none ↦
      catch
        (refresh_current_session server request.cookies >>= λ s.
          pure (refreshed_response server s.0 s.1))
        backend_error_response
]
