-- ===== src/Tests/Lost.antt =====
-- The theorem on lost tokens: the back end grants tokens, and is not reached again.
use enterprise_crm.Common.{◌<>◌, true, none, some, [], ◌≡◌, refl, ◌==◌, if◌then◌else◌}
use enterprise_crm.Http.{
  responds, rejects, whole, text, Server, ok, throw, backend_request_error, unavailable,
}
use enterprise_crm.Http.Headers
use enterprise_crm.Session.Backend.{
  BackendTokenResponse, backend_request, read_json_safely, is_token_response,
  backend_error_response,
}
use enterprise_crm.Session.Config.{
  access_token_cookie, refresh_token_cookie, backend_url, drop_last_slash, get_backend_timeout_ms,
}
use enterprise_crm.Session.Csrf.{
  is_unsafe_method, check_origin, get_request_origin, check_token, require_csrf_protection,
}
use enterprise_crm.Session.Refresh.{
  perform_refresh_access_token, refresh_result, with_authorization,
}
use enterprise_crm.Session.Refresh.Calls.{Holds, Lacks}
use enterprise_crm.Proxy.{forward_init, read_body, proxy_api_request}
use enterprise_crm.Proxy.Lost.{proxy_api_request-lost}
use enterprise_crm.Tests.{
  test_server, crm_url, session_jar, post_request, answer_json, granted_tokens,
}

abbrev failing_server : Server
failing_server = record test_server {
  answer = λ log call.
      if call.url == "http://backend/auth/refresh"
      then responds 5 (answer_json 200 granted_tokens)
      else rejects 3;
}

abbrev new_tokens : BackendTokenResponse
new_tokens = record {
  access_token = "new-access";
  refresh_token = "new-refresh";
  expires_in = whole 900;
}

still_passed : require_csrf_protection failing_server post_request true ≡ none
unfolding require_csrf_protection is_unsafe_method check_origin get_request_origin Headers.get
    check_token
still_passed = refl

body_read : read_body post_request ≡ ok (some (text "{}"))
unfolding read_body
body_read = refl

no_access : Lacks access_token_cookie session_jar
unfolding Headers.get
no_access = refl

refresh_held : Holds refresh_token_cookie session_jar "old-refresh"
unfolding Headers.get
refresh_held = refl

new_granted :
    (perform_refresh_access_token failing_server "old-refresh" []).0 ≡ ok (some new_tokens)
unfolding Headers.get perform_refresh_access_token backend_request backend_url drop_last_slash
    get_backend_timeout_ms refresh_result is_token_response read_json_safely
new_granted = refl

second_fails :
    (backend_request failing_server
      ("/deals" <> crm_url.search)
      (with_authorization (forward_init post_request (some (text "{}"))) new_tokens.access_token)
      (perform_refresh_access_token failing_server "old-refresh" []).1).0
    ≡ throw (backend_request_error unavailable)
unfolding Headers.get perform_refresh_access_token backend_request backend_url drop_last_slash
    get_backend_timeout_ms refresh_result is_token_response read_json_safely
second_fails = refl

proxy_api_request-lost_example :
    ((proxy_api_request failing_server "/deals" post_request []).0
      ≡ ok (backend_error_response (backend_request_error unavailable)))
    × ((backend_error_response (backend_request_error unavailable)).cookies ≡ [])
proxy_api_request-lost_example =
    proxy_api_request-lost failing_server "/deals" post_request [] crm_url (some (text "{}"))
      "old-refresh" new_tokens (backend_request_error unavailable) still_passed body_read refl
      no_access refresh_held new_granted second_fails
