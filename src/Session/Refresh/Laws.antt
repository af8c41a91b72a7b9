-- ===== src/Session/Refresh/Laws.antt =====
-- shared.ts: what an authenticated call gives back.
use enterprise_crm.Common.{
  String, Bool, true, false, Option, none, some, List, ◌≡◌, refl, ◌≢◌, ◌↔◌, inl, inr, arith, eqb,
  Option-cases, Bool-cases, ◌||◌,
}
use enterprise_crm.Http.{RequestInit, Call, Response, Server, truthy, ok, OnOk, OnOk-bind, OnOk-use}
use enterprise_crm.Http.Headers
use enterprise_crm.Session.Config.{access_token_cookie, refresh_token_cookie, csrf_token_cookie}
use enterprise_crm.Session.Backend.{BackendTokenResponse, backend_request}
use enterprise_crm.Session.Refresh.{
  AuthenticatedBackendResult, perform_refresh_access_token, with_authorization, retry,
  refresh_and_retry, first_response, authenticated_backend_request, is_unauthorized,
}

-- There is no answer, or it is a 401.
abbrev pub NotSignedIn : Option Response → Type 0
NotSignedIn none = Unit
NotSignedIn (some r) = r.status ≡ 401

pub record IsCoherent (jar : List (String × String)) (r : AuthenticatedBackendResult) : Type 0 where
  pub clears : (r.should_clear_session ≡ true) ↔ NotSignedIn r.response
  pub answered : r.refreshed_tokens ≢ none → r.response ≢ none
  pub csrf_kept : r.csrf_token ≡ Headers.get csrf_token_cookie jar

module _ (server : Server) (jar : List (String × String)) (path : String) (init : RequestInit) where
  retry-IsCoherent :
      (initial : Option Response) (tokens : Option BackendTokenResponse) (log : List Call)
      → NotSignedIn initial
      → OnOk (IsCoherent jar) (retry server jar path init initial tokens log).0
  unfolding retry
  retry-IsCoherent none none log h = ground arith
  retry-IsCoherent (some r) none log h = ground arith
  retry-IsCoherent initial (some tokens) log h =
      OnOk-bind (IsCoherent jar)
        (backend_request server path (with_authorization init tokens.access_token) log).0 _ _
        (λ r l. ground arith)

  no_refresh-IsCoherent :
      (initial : Option Response) (no_access : Bool)
      → NotSignedIn initial
      → (initial ≡ none → no_access ≡ true)
      → IsCoherent jar (record {
        csrf_token = Headers.get csrf_token_cookie jar;
        refreshed_tokens = none;
        response = initial;
        should_clear_session = is_unauthorized initial || no_access;
      })
  no_refresh-IsCoherent none no_access h k = ground (arith, k refl)
  no_refresh-IsCoherent (some r) no_access h k = ground arith

  refresh_and_retry-IsCoherent :
      (initial : Option Response) (no_access : Bool) (log : List Call)
      → NotSignedIn initial
      → (initial ≡ none → no_access ≡ true)
      → OnOk (IsCoherent jar) (refresh_and_retry server jar path init initial no_access log).0
  unfolding refresh_and_retry
  refresh_and_retry-IsCoherent initial no_access log h k =
      elim (Option-cases (truthy (Headers.get refresh_token_cookie jar))) [
        | inl lacks ↦ rw (lacks, refresh_and_retry) (no_refresh-IsCoherent initial no_access h k)
        | inr (token, holds) ↦
            rw (holds, refresh_and_retry)
              (OnOk-bind (IsCoherent jar) (perform_refresh_access_token server token log).0 _ _
                (λ tokens l. retry-IsCoherent initial tokens l h))
      ]

  first_response-IsCoherent :
      (r : Response) (log : List Call)
      → OnOk (IsCoherent jar) (first_response server jar path init r log).0
  unfolding first_response
  first_response-IsCoherent r log = elim (Bool-cases (eqb r.status 401)) [
    | inl denied ↦
        rw (denied, first_response)
          (refresh_and_retry-IsCoherent (some r) false log (ground arith) (λ e. cc))
    | inr fine ↦ rw (fine, first_response) (ground arith)
  ]

  authenticated-OnOk :
      (log : List Call)
      → OnOk (IsCoherent jar) (authenticated_backend_request server jar path init log).0
  unfolding authenticated_backend_request
  authenticated-OnOk log = elim (Option-cases (truthy (Headers.get access_token_cookie jar))) [
    | inl lacks ↦
        rw (lacks, authenticated_backend_request)
          (refresh_and_retry-IsCoherent none true log tt (λ e. refl))
    | inr (token, holds) ↦
        rw (holds, authenticated_backend_request)
          (OnOk-bind (IsCoherent jar)
            (backend_request server path (with_authorization init token) log).0 _ _
            first_response-IsCoherent)
  ]

  -- Where an authenticated request returns a result, the session is to be cleared exactly if there
  -- is no answer or the answer is a 401; refreshed tokens come with an answer; and the CSRF token is
  -- the one of the request's cookie.
  pub authenticated_backend_request-IsCoherent :
      (log : List Call) (r : AuthenticatedBackendResult)
      → (authenticated_backend_request server jar path init log).0 ≡ ok r
      → IsCoherent jar r
  authenticated_backend_request-IsCoherent log r e =
      OnOk-use (IsCoherent jar) _ r (authenticated-OnOk log) e
