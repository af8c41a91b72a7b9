-- ===== src/Tests/Sessions.antt =====
-- The theorems on sessions, on concrete requests.
use enterprise_crm.Common.{◌≤◌, true, false, none, some, [], ◌∷◌, ◌≡◌, refl, ◌↔◌, length}
use enterprise_crm.Http.{
  Method, text, RequestInit, Server, ok, throw, bytes, NextResponse, backend_request_error,
  unavailable, Returns, whole,
}
use enterprise_crm.Http.Headers
use enterprise_crm.Session.Backend.{backend_request, read_json_safely, is_token_response}
use enterprise_crm.Session.Config.{backend_url, drop_last_slash, get_backend_timeout_ms}
use enterprise_crm.Session.Csrf.{
  cross_site, is_unsafe_method, check_origin, get_request_origin, require_csrf_protection,
}
use enterprise_crm.Session.Csrf.Laws.{IsTrusted, require_csrf_protection_iff}
use enterprise_crm.Session.Refresh.{
  perform_refresh_access_token, refresh_result, AuthenticatedBackendResult,
  authenticated_backend_request,
}
use enterprise_crm.Session.Refresh.Laws.{IsCoherent, authenticated_backend_request-IsCoherent}
use enterprise_crm.Session.Refresh.Calls.{
  Exchanged, authenticated_backend_request-Exchanged, length-authenticated_backend_request,
}
use enterprise_crm.Proxy.Faithful.{Shows, respond-FollowsSession}
use enterprise_crm.Proxy.Changes.{FollowsSession}
use enterprise_crm.Session.Cookies.{session_cookies}
use enterprise_crm.Proxy.{
  proxied, apply_session_changes, response_headers, respond, proxy_api_request,
}
use enterprise_crm.Proxy.Answers.{Answer, proxy_api_request-Answer}
use enterprise_crm.Tests.{
  test_server, session_jar, post_request, foreign_request, known_user, answer_json,
}

abbrev deal_init : RequestInit
deal_init = record { method = Method.post; headers = []; body = some (text "{}") }

abbrev renewed_result : AuthenticatedBackendResult
renewed_result = record {
  csrf_token = some "token";
  refreshed_tokens = some (record {
    access_token = "new-access";
    refresh_token = "new-refresh";
    expires_in = whole 900;
  });
  response = some (answer_json 200 known_user);
  should_clear_session = false;
}

renewed_made :
    (authenticated_backend_request test_server session_jar "/deals" deal_init []).0
    ≡ ok renewed_result
unfolding authenticated_backend_request Headers.get perform_refresh_access_token backend_request
    backend_url drop_last_slash get_backend_timeout_ms refresh_result is_token_response
    read_json_safely
renewed_made = refl

renewed_IsCoherent : IsCoherent session_jar renewed_result
renewed_IsCoherent =
    authenticated_backend_request-IsCoherent test_server session_jar "/deals" deal_init []
      renewed_result renewed_made

abbrev renewed_answer : NextResponse
renewed_answer = record {
  status = 200;
  headers =
      ("cache-control", "no-store")
      ∷ ("x-content-type-options", "nosniff")
      ∷ ("content-type", "application/json")
      ∷ [];
  body = bytes "{}";
  cookies =
      session_cookies test_server
        (record {
          access_token = "new-access";
          refresh_token = "new-refresh";
          expires_in = whole 900;
        })
        (some "token");
}

renewed_responded : respond test_server renewed_result ≡ ok renewed_answer
unfolding respond proxied apply_session_changes response_headers Headers.get Headers.set
renewed_responded = refl

foreign_blocked : require_csrf_protection test_server foreign_request true ≡ some cross_site
unfolding require_csrf_protection is_unsafe_method check_origin get_request_origin Headers.get
foreign_blocked = refl

foreign_untrusted : ¬ IsTrusted test_server foreign_request true
foreign_untrusted trusted =
    cc (foreign_blocked, (require_csrf_protection_iff test_server foreign_request true).1 trusted)

abbrev unconfigured_server : Server
unconfigured_server = record test_server { backend_api_url = none }

unconfigured_throws :
    (backend_request unconfigured_server "/deals" deal_init []).0
    ≡ throw (backend_request_error unavailable)
unfolding backend_request backend_url
unconfigured_throws = refl

proxy_api_request-Answer_example :
    Returns
      (Answer test_server "/deals" post_request [])
      (proxy_api_request test_server "/deals" post_request []).0
proxy_api_request-Answer_example = proxy_api_request-Answer test_server "/deals" post_request []

authenticated_backend_request-Exchanged_example :
    Exchanged test_server session_jar "/deals" deal_init []
      (authenticated_backend_request test_server session_jar "/deals" deal_init []).1
authenticated_backend_request-Exchanged_example =
    authenticated_backend_request-Exchanged test_server session_jar "/deals" deal_init []

length-authenticated_backend_request_example :
    length (authenticated_backend_request test_server session_jar "/deals" deal_init []).1 ≤ 3
length-authenticated_backend_request_example =
    length-authenticated_backend_request test_server session_jar "/deals" deal_init []

authenticated_backend_request-IsCoherent_example : IsCoherent session_jar renewed_result
authenticated_backend_request-IsCoherent_example =
    authenticated_backend_request-IsCoherent test_server session_jar "/deals" deal_init []
      renewed_result renewed_made

respond-FollowsSession_example :
    Shows renewed_result.response renewed_answer
    × FollowsSession test_server session_jar renewed_result renewed_answer
respond-FollowsSession_example =
    respond-FollowsSession test_server session_jar renewed_result renewed_answer renewed_IsCoherent
      renewed_responded

require_csrf_protection_iff_example :
    (require_csrf_protection test_server post_request true ≡ none)
    ↔ IsTrusted test_server post_request true
require_csrf_protection_iff_example = require_csrf_protection_iff test_server post_request true
