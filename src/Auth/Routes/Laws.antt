-- ===== src/Auth/Routes/Laws.antt =====
-- auth/me/route.ts and auth/logout/route.ts: every answer of the handlers.
use enterprise_crm.Common.{
  String, false, Option, none, some, List, [], ◌≡◌, refl, inl, inr, Option-cases,
}
use enterprise_crm.Http.{
  Call, Response, is_ok, Server, Request, truthy, Result, ok, NextResponse, OnOk, OnOk-if, Returns,
}
use enterprise_crm.Http.Headers
use enterprise_crm.Session.Config.{refresh_token_cookie}
use enterprise_crm.Session.Backend.{backend_request, read_json_safely}
use enterprise_crm.Session.Cookies.{no_session_cookies, clear_authentication_cookies}
use enterprise_crm.Session.Csrf.{require_csrf_protection}
use enterprise_crm.Session.Csrf.Laws.{
  IsTrusted, require_csrf_protection_iff, require_csrf_protection-403,
}
use enterprise_crm.Session.Refresh.{AuthenticatedBackendResult, refresh_init}
use enterprise_crm.Session.Refresh.Laws.{IsCoherent}
use enterprise_crm.Proxy.Changes.{with_session_changes_cookies, response_from_backend_error_cookies}
use enterprise_crm.Auth.Routes.{get_init, me_response, me_result, me, revoke, logout}
use enterprise_crm.Auth.Mfa.{no_content}
use enterprise_crm.Auth.Outcomes.{
  Applies, Outcome, json_response_cookies, unanswered-Applies, catch-Outcome,
}

me_response_cookies : (r : Response) → OnOk (λ out. out.cookies ≡ []) (me_response r)
me_response_cookies r =
    OnOk-if (λ out. out.cookies ≡ []) (is_ok r) _ _
      (json_response_cookies (read_json_safely r) r.status)
      (response_from_backend_error_cookies r (read_json_safely r))

me_result-Applies :
    (server : Server) (jar : List (String × String)) (result : AuthenticatedBackendResult)
    (response : Option Response)
    → IsCoherent jar result
    → result.response ≡ response
    → Applies server result (me_result server result response)
unfolding me_result
me_result-Applies server jar result none coherent e =
    unanswered-Applies server jar result _ coherent e refl
me_result-Applies server jar result (some r) coherent e =
    with_session_changes_cookies server result (me_response r) (me_response_cookies r)

-- A request for the current user is always answered: by what an authenticated call gives, whose
-- answer the session follows, or by the response of its error.
pub me-Outcome :
    (server : Server) (request : Request) (log : List Call)
    → Returns
        (Outcome server request.cookies "/auth/me" get_init
          (λ result. me_result server result result.response)
          log)
        (me server request log).0
unfolding me
me-Outcome server request log =
    catch-Outcome server request.cookies "/auth/me" get_init
      (λ result. me_result server result result.response)
      (λ result coherent.
        me_result-Applies server request.cookies result result.response coherent refl)
      log

-- Which calls a logout adds to those made before: one that revokes the refresh token, if there is
-- any.
abbrev pub logged_out : Server → Option String → List Call → List Call
logged_out server none log = log
logged_out server (some token) log =
    (backend_request server "/auth/logout" (refresh_init token) log).1

pub data LogoutAnswer (server : Server) (request : Request) (log : List Call)
    (r : Result NextResponse × List Call) : Type 0 where
  not_trusted :
      ¬ IsTrusted server request false
      → (out : NextResponse) → r ≡ (ok out, log)
      → out.status ≡ 403
      → out.cookies ≡ []
      → LogoutAnswer server request log r
  closed :
      IsTrusted server request false
      → (out : NextResponse) → r.0 ≡ ok out
      → out.status ≡ 204
      → out.cookies ≡ no_session_cookies
      → r.1 ≡ logged_out server (truthy (Headers.get refresh_token_cookie request.cookies)) log
      → LogoutAnswer server request log r

revoke-ok :
    (server : Server) (token : Option String) (log : List Call)
    → revoke server token log ≡ (ok tt, logged_out server token log)
unfolding revoke
revoke-ok server none log = refl
revoke-ok server (some token) log = refl

-- A logout of a trusted request ends the client's session with a 204 whatever the back end does,
-- and asks the back end to revoke the refresh token where there is one; a request that is not
-- trusted gets a 403 and changes nothing.
pub logout-LogoutAnswer :
    (server : Server) (request : Request) (log : List Call)
    → LogoutAnswer server request log (logout server request log)
unfolding logout
logout-LogoutAnswer server request log =
    elim (Option-cases (require_csrf_protection server request false)) [
      | inr (failure, blocked) ↦
          let (status, none_set) =
            require_csrf_protection-403 server request false failure blocked in
          not_trusted
            (λ trusted. cc (blocked, (require_csrf_protection_iff server request false).1 trusted))
            failure (rw (blocked, logout) refl) status none_set
      | inl passed ↦
          closed ((require_csrf_protection_iff server request false).0 passed)
            (clear_authentication_cookies no_content) (rw (passed, logout) (rw revoke-ok refl)) refl
            refl (rw (passed, logout) (rw revoke-ok refl))
    ]
