-- ===== src/Proxy/Lost.antt =====
-- proxy.ts: a refresh whose second call fails.
use enterprise_crm.Common.{true, String, ◌<>◌, Option, none, some, List, [], ◌≡◌, ap, ◌∙◌}
use enterprise_crm.Http.{
  Call, Request, Server, Url, Thrown, ok, throw, Payload, other_error, or_throw, bind_result-throw,
  catch, recover,
}
use enterprise_crm.Session.Config.{access_token_cookie, refresh_token_cookie}
use enterprise_crm.Session.Backend.{BackendTokenResponse, backend_request, backend_error_response}
use enterprise_crm.Session.Csrf.{require_csrf_protection}
use enterprise_crm.Session.Refresh.{perform_refresh_access_token, with_authorization}
use enterprise_crm.Session.Refresh.Calls.{Holds, Lacks}
use enterprise_crm.Session.Refresh.Lost.{bind_result-ok, authenticated_backend_request-throw}
use enterprise_crm.Proxy.{forward_init, read_body, forward, proxy_api_request}
use enterprise_crm.Auth.Login.Laws.{backend_error_response_cookies}

forward-throw :
    (server : Server) (path : String) (request : Request) (log : List Call) (url : Url)
    (body : Option Payload) (token : String) (tokens : BackendTokenResponse) (e : Thrown)
    → read_body request ≡ ok body
    → server.parse_url request.url ≡ some url
    → Lacks access_token_cookie request.cookies
    → Holds refresh_token_cookie request.cookies token
    → (perform_refresh_access_token server token log).0 ≡ ok (some tokens)
    → (backend_request server
        (path <> url.search)
        (with_authorization (forward_init request body) tokens.access_token)
        (perform_refresh_access_token server token log).1).0
      ≡ throw e
    → (forward server path request log).0 ≡ throw e
unfolding forward
forward-throw server path request log url body token tokens e read parsed lacks holds granted lost =
    bind_result-ok (read_body request) log _ body read
    ∙ bind_result-ok (or_throw (server.parse_url request.url) other_error) log _ url
        (ap (λ o. or_throw o other_error) parsed)
    ∙ bind_result-throw _ _ _ e (
        authenticated_backend_request-throw server request.cookies (path <> url.search)
          (forward_init request body) token tokens log e lacks holds granted lost)

-- If a trusted request has no access token, its refresh gives new tokens, and the call with them
-- fails, then the proxy answers with the response of this error and sets no cookie: the client keeps
-- its old refresh token, and the new tokens are lost.
pub proxy_api_request-lost :
    (server : Server) (path : String) (request : Request) (log : List Call) (url : Url)
    (body : Option Payload) (token : String) (tokens : BackendTokenResponse) (e : Thrown)
    → require_csrf_protection server request true ≡ none
    → read_body request ≡ ok body
    → server.parse_url request.url ≡ some url
    → Lacks access_token_cookie request.cookies
    → Holds refresh_token_cookie request.cookies token
    → (perform_refresh_access_token server token log).0 ≡ ok (some tokens)
    → (backend_request server
        (path <> url.search)
        (with_authorization (forward_init request body) tokens.access_token)
        (perform_refresh_access_token server token log).1).0
      ≡ throw e
    → ((proxy_api_request server path request log).0 ≡ ok (backend_error_response e))
      × ((backend_error_response e).cookies ≡ [])
unfolding proxy_api_request catch
proxy_api_request-lost server path request log url body token tokens e passed read parsed lacks
      holds granted lost =
    (
      rw (passed, proxy_api_request)
          (ap (λ r. ok (recover r backend_error_response))
            (forward-throw server path request log url body token tokens e read parsed lacks holds
              granted lost)),
      backend_error_response_cookies e,
    )
