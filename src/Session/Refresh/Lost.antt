-- ===== src/Session/Refresh/Lost.antt =====
-- shared.ts: a refresh whose second call fails.
use enterprise_crm.Common.{String, Option, none, some, List, ◌≡◌, ap, ◌∙◌}
use enterprise_crm.Http.{
  RequestInit, Call, Response, Server, Thrown, Result, ok, throw, bind_result, bind_result-throw,
}
use enterprise_crm.Session.Config.{access_token_cookie, refresh_token_cookie}
use enterprise_crm.Session.Backend.{BackendTokenResponse, backend_request}
use enterprise_crm.Session.Refresh.{
  perform_refresh_access_token, with_authorization, retry, refresh_and_retry,
  authenticated_backend_request,
}
use enterprise_crm.Session.Refresh.Calls.{Holds, Lacks}

-- The next step of a chain, after one that has returned.
pub bind_result-ok :
    {A B : Type 0} (r : Result A) (log : List Call) (f : A → List Call → Result B × List Call)
    (a : A)
    → r ≡ ok a
    → (bind_result r log f).0 ≡ (f a log).0
bind_result-ok (ok b) log f a e = ap (λ r. (bind_result r log f).0) e
bind_result-ok (throw t) log f a e = cc

module _ (server : Server) (jar : List (String × String)) (path : String) (init : RequestInit) where
  retry-throw :
      (initial : Option Response) (tokens : BackendTokenResponse) (log : List Call) (e : Thrown)
      → (backend_request server path (with_authorization init tokens.access_token) log).0 ≡ throw e
      → (retry server jar path init initial (some tokens) log).0 ≡ throw e
  unfolding retry
  retry-throw initial tokens log e h =
      bind_result-throw
        (backend_request server path (with_authorization init tokens.access_token) log).0 _ _ e h

  -- Without an access token, an authenticated call whose refresh has given tokens, and whose only
  -- attempt with them fails, throws that error: the tokens are not in it.
  pub authenticated_backend_request-throw :
      (token : String) (tokens : BackendTokenResponse) (log : List Call) (e : Thrown)
      → Lacks access_token_cookie jar
      → Holds refresh_token_cookie jar token
      → (perform_refresh_access_token server token log).0 ≡ ok (some tokens)
      → (backend_request server path
          (with_authorization init tokens.access_token)
          (perform_refresh_access_token server token log).1).0
        ≡ throw e
      → (authenticated_backend_request server jar path init log).0 ≡ throw e
  unfolding authenticated_backend_request
  authenticated_backend_request-throw token tokens log e lacks holds granted lost =
      rw (lacks, authenticated_backend_request)
        (rw (holds, refresh_and_retry)
          (bind_result-ok (perform_refresh_access_token server token log).0
              (perform_refresh_access_token server token log).1 (retry server jar path init none)
              (some tokens) granted
            ∙ retry-throw none tokens (perform_refresh_access_token server token log).1 e lost))
