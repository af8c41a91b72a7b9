-- ===== src/Tests/Handlers.antt =====
-- The theorems on the route modules, on concrete requests.
use enterprise_crm.Common.{String, true, false, none, some, List, [], ◌∷◌, ◌≡◌, refl, all}
use enterprise_crm.Common.Text.{ne_of_test}
use enterprise_crm.Http.{
  rejects, whole, Server, backend_request_error, unavailable, ok, throw, Returns,
}
use enterprise_crm.Http.Headers
use enterprise_crm.Session.Backend.{backend_request, read_json_safely, is_token_response}
use enterprise_crm.Session.Config.{backend_url, drop_last_slash, get_backend_timeout_ms}
use enterprise_crm.Session.Csrf.{
  is_unsafe_method, check_origin, get_request_origin, check_token, require_csrf_protection,
}
use enterprise_crm.Session.Refresh.{
  perform_refresh_access_token, refresh_result, AuthenticatedBackendResult,
  authenticated_backend_request,
}
use enterprise_crm.Proxy.Filter.{IsFiltered}
use enterprise_crm.Auth.Login.{login}
use enterprise_crm.Auth.Login.Laws as LoginLaws
use enterprise_crm.Auth.Login.Laws.{login-Outcome}
use enterprise_crm.Auth.Mfa.{mfa}
use enterprise_crm.Auth.Mfa.Laws.{MfaAnswer, mfa-MfaAnswer}
use enterprise_crm.Auth.Routes.{logout, refresh}
use enterprise_crm.Auth.Routes.Laws.{LogoutAnswer, logout-LogoutAnswer}
use enterprise_crm.Auth.Routes.Renewal.{RefreshAnswer, refresh-RefreshAnswer}
use enterprise_crm.Routes.V3.{is_part}
use enterprise_crm.Routes.V3.Laws.{Forwards, proxy-Forwards}
use enterprise_crm.Routes.Stream.{stream_init}
use enterprise_crm.Tests.{test_server, session_jar, post_request, known_user, answer_json}

abbrev offline_server : Server
offline_server = record test_server { answer = λ log call. rejects 3 }

abbrev goal_parts : List String
goal_parts = "goals" ∷ "g1" ∷ []

set_cookie-IsFiltered : IsFiltered "set-cookie"
set_cookie-IsFiltered = (
  ne_of_test _ _ refl,
  ne_of_test _ _ refl,
  ne_of_test _ _ refl,
  ne_of_test _ _ refl,
  ne_of_test _ _ refl,
)

spaced : all is_part ("a b" ∷ []) ≡ false
unfolding is_part
spaced = refl

passed : require_csrf_protection test_server post_request true ≡ none
unfolding require_csrf_protection is_unsafe_method check_origin get_request_origin Headers.get
    check_token
passed = refl

passed_offline : require_csrf_protection offline_server post_request true ≡ none
unfolding require_csrf_protection is_unsafe_method check_origin get_request_origin Headers.get
    check_token
passed_offline = refl

abbrev streamed : AuthenticatedBackendResult
streamed = record {
  csrf_token = some "token";
  refreshed_tokens = some (record {
    access_token = "new-access";
    refresh_token = "new-refresh";
    expires_in = whole 900;
  });
  response = some (answer_json 200 known_user);
  should_clear_session = false;
}

stream_made :
    (authenticated_backend_request test_server session_jar "/v3/ai/copilot/stream"
      (stream_init "{}")
      []).0
    ≡ ok streamed
unfolding authenticated_backend_request Headers.get perform_refresh_access_token backend_request
    backend_url drop_last_slash get_backend_timeout_ms refresh_result is_token_response
    read_json_safely
stream_made = refl

stream_fails :
    (authenticated_backend_request offline_server session_jar "/v3/ai/copilot/stream"
      (stream_init "{}")
      []).0
    ≡ throw (backend_request_error unavailable)
unfolding authenticated_backend_request Headers.get perform_refresh_access_token backend_request
    backend_url drop_last_slash get_backend_timeout_ms refresh_result is_token_response
    read_json_safely
stream_fails = refl

login-Outcome_example :
    Returns (LoginLaws.Outcome test_server post_request []) (login test_server post_request []).0
login-Outcome_example = login-Outcome test_server post_request []

mfa-MfaAnswer_example :
    Returns
      (MfaAnswer test_server post_request "confirm" [])
      (mfa test_server post_request "confirm" []).0
mfa-MfaAnswer_example = mfa-MfaAnswer test_server post_request "confirm" []

logout-LogoutAnswer_example :
    LogoutAnswer test_server post_request [] (logout test_server post_request [])
logout-LogoutAnswer_example = logout-LogoutAnswer test_server post_request []

refresh-RefreshAnswer_example :
    Returns (RefreshAnswer test_server post_request []) (refresh test_server post_request []).0
refresh-RefreshAnswer_example = refresh-RefreshAnswer test_server post_request []

proxy-Forwards_example : Forwards goal_parts test_server post_request []
proxy-Forwards_example = proxy-Forwards goal_parts test_server post_request []
