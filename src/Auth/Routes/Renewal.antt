-- ===== src/Auth/Routes/Renewal.antt =====
-- auth/refresh/route.ts: every answer of the handler.
use enterprise_crm.Common.{
  String, true, Option, none, some, List, [], ◌≡◌, refl, sym, subst, ◌∙◌, inl, inr, Option-cases,
}
use enterprise_crm.Http.{
  Call, Server, Request, truthy, Thrown, ok, throw, M, ◌>>=◌, bind_result, bind_result-pure, reply,
  detail, pure, NextResponse, catch, OnOk, OnOk-bind_eq, Returns, Returns-catch, >>=-eq-throw,
}
use enterprise_crm.Http.Headers
use enterprise_crm.Session.Config.{refresh_token_cookie, csrf_token_cookie}
use enterprise_crm.Session.Backend.{BackendTokenResponse, backend_error_response}
use enterprise_crm.Session.Cookies.{
  session_cookies, no_session_cookies, clear_authentication_cookies,
}
use enterprise_crm.Session.Csrf.{require_csrf_protection}
use enterprise_crm.Session.Csrf.Laws.{
  IsTrusted, require_csrf_protection_iff, require_csrf_protection-403,
}
use enterprise_crm.Session.Refresh.{refresh_current_session, perform_refresh_access_token}
use enterprise_crm.Auth.Routes.{refreshed_response, refresh}

module _ (server : Server) (request : Request) (log : List Call) where
  abbrev pub presented : Option String
  presented = truthy (Headers.get refresh_token_cookie request.cookies)

  -- What a refresh of the session may come to.
  pub data RefreshAnswer (out : NextResponse) : Type 0 where
    untrusted :
        ¬ IsTrusted server request true → out.status ≡ 403 → out.cookies ≡ [] → RefreshAnswer out
    renewed :
        IsTrusted server request true
        → (token : String) (tokens : BackendTokenResponse) → presented ≡ some token
        → (perform_refresh_access_token server token log).0 ≡ ok (some tokens)
        → out.status ≡ 200
        → out.cookies
          ≡ session_cookies server tokens (Headers.get csrf_token_cookie request.cookies)
        → RefreshAnswer out
    nothing_presented :
        IsTrusted server request true
        → presented ≡ none
        → out.status ≡ 401
        → out.cookies ≡ no_session_cookies
        → RefreshAnswer out
    refused :
        IsTrusted server request true
        → (token : String) → presented ≡ some token
        → (perform_refresh_access_token server token log).0 ≡ ok none
        → out.status ≡ 401
        → out.cookies ≡ no_session_cookies
        → RefreshAnswer out
    not_refreshed :
        IsTrusted server request true
        → (token : String) (e : Thrown) → presented ≡ some token
        → (perform_refresh_access_token server token log).0 ≡ throw e
        → out ≡ backend_error_response e
        → RefreshAnswer out

  answered-RefreshAnswer :
      IsTrusted server request true
      → (token : String) (tokens : Option BackendTokenResponse) → presented ≡ some token
      → (perform_refresh_access_token server token log).0 ≡ ok tokens
      → RefreshAnswer
          (refreshed_response server (Headers.get csrf_token_cookie request.cookies) tokens)
  unfolding refreshed_response
  answered-RefreshAnswer trusted token none e h = refused trusted token e h refl refl
  answered-RefreshAnswer trusted token (some tokens) e h =
      renewed trusted token tokens e h refl refl

  abbrev renew : M NextResponse
  renew = refresh_current_session server request.cookies >>= λ s.
      pure (refreshed_response server s.0 s.1)

  renew_without :
      presented ≡ none
      → (renew log).0
        ≡ ok (clear_authentication_cookies (reply (detail "Authentication required") 401))
  unfolding refresh_current_session refreshed_response
  renew_without h = rw (h, refresh_current_session) refl

  renew_with :
      (token : String)
      → presented ≡ some token
      → (renew log).0
        ≡ (bind_result
            (perform_refresh_access_token server token log).0
            (perform_refresh_access_token server token log).1
            (λ tokens.
              pure (
                refreshed_response server
                  (Headers.get csrf_token_cookie request.cookies)
                  tokens))).0
  unfolding refresh_current_session
  renew_with token h =
      rw (h, refresh_current_session)
        (bind_result-pure (perform_refresh_access_token server token log).0
          (perform_refresh_access_token server token log).1
          (λ tokens. (Headers.get csrf_token_cookie request.cookies, tokens))
          (λ s. pure (refreshed_response server s.0 s.1)))

  failed_refresh :
      (token : String) (e : Thrown)
      → presented ≡ some token
      → (renew log).0 ≡ throw e
      → (perform_refresh_access_token server token log).0 ≡ throw e
  failed_refresh token e h failed =
      elim (>>=-eq-throw (perform_refresh_access_token server token log).0 _ _ e
        (sym (renew_with token h) ∙ failed)) [
          | inl lost ↦ lost
          | inr (tokens, made, never) ↦ cc never
        ]

  with_token-RefreshAnswer :
      IsTrusted server request true
      → (token : String) → presented ≡ some token
      → Returns RefreshAnswer (catch renew backend_error_response log).0
  with_token-RefreshAnswer trusted token h =
      Returns-catch RefreshAnswer renew backend_error_response log
        (subst (OnOk RefreshAnswer) (sym (renew_with token h)) (
          OnOk-bind_eq RefreshAnswer (perform_refresh_access_token server token log).0 _ _
            (λ tokens made. answered-RefreshAnswer trusted token tokens h made)))
        (λ e failed. not_refreshed trusted token e h (failed_refresh token e h failed) refl)

  without_token-RefreshAnswer :
      IsTrusted server request true
      → presented ≡ none
      → Returns RefreshAnswer (catch renew backend_error_response log).0
  without_token-RefreshAnswer trusted h =
      Returns-catch RefreshAnswer renew backend_error_response log
        (subst (OnOk RefreshAnswer) (sym (renew_without h)) (nothing_presented trusted h refl refl))
        (λ e failed. cc (failed, renew_without h))

  -- Every request for a new access token is answered: with a 403 if it is not trusted; with new
  -- session cookies that keep the CSRF token if the back end grants tokens; with a 401 that ends the
  -- session if there is no refresh token or the back end refuses it; and with the error's response,
  -- which keeps the session, if the back end fails.
  pub refresh-RefreshAnswer : Returns RefreshAnswer (refresh server request log).0
  unfolding refresh
  refresh-RefreshAnswer = elim (Option-cases (require_csrf_protection server request true)) [
    | inr (failure, blocked) ↦
        let (status, none_set) = require_csrf_protection-403 server request true failure blocked in
        rw (blocked, refresh)
          (untrusted
            (λ trusted. cc (blocked, (require_csrf_protection_iff server request true).1 trusted))
            status none_set)
    | inl passed ↦
        let trusted = (require_csrf_protection_iff server request true).0 passed in
        elim (Option-cases presented) [
          | inl nothing ↦ rw (passed, refresh) (without_token-RefreshAnswer trusted nothing)
          | inr (token, h) ↦ rw (passed, refresh) (with_token-RefreshAnswer trusted token h)
        ]
  ]
