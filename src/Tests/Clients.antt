-- ===== src/Tests/Clients.antt =====
-- The theorems on the client of the BFF, on a concrete browser.
use enterprise_crm.Common.{true, none, some, [], ◌≡◌, refl}
use enterprise_crm.Common.Text.{ne_of_test}
use enterprise_crm.Http.{Method, str}
use enterprise_crm.Http.Headers
use enterprise_crm.Session.Config.{csrf_token_cookie}
use enterprise_crm.Session.Csrf.{require_csrf_protection, get_request_origin}
use enterprise_crm.Client.{
  is_mutating, Browser, ApiRequestOptions, read_cookie, request_call, request,
}
use enterprise_crm.Client.Laws.{Settles, content_of, request-Settles}
use enterprise_crm.Client.Tokens.{Carries, request_call-IsTrusted}
use enterprise_crm.Tests.{test_server, post_request, answer_json}

abbrev test_browser : Browser
test_browser = record {
  api_base_url = none;
  document_cookie = some "theme=dark; enterprise_crm_csrf=token";
  decode_uri_component = λ s. some s;
  fetch = λ call. some (answer_json 422 (str "  No such deal  "));
}

abbrev post_options : ApiRequestOptions
post_options = record { method = some Method.post; headers = []; body = none; cache = none }

cookie_found : read_cookie test_browser csrf_token_cookie ≡ some "token"
unfolding read_cookie
cookie_found = refl

request-Settles_example :
    Settles content_of
      (test_browser.fetch (request_call test_browser "/deals" post_options))
      (request test_browser "/deals" post_options)
request-Settles_example = request-Settles test_browser "/deals" post_options

post_request-Carries :
    Carries test_server post_request (request_call test_browser "/deals" post_options) "token"
unfolding request_call read_cookie is_mutating Headers.get Headers.set get_request_origin
post_request-Carries = record {
  method = refl;
  header = refl;
  cookie = refl;
  origin = ("https://crm", ne_of_test _ _ refl, refl, refl);
}

request_call-IsTrusted_example : require_csrf_protection test_server post_request true ≡ none
unfolding Headers.get
request_call-IsTrusted_example =
    request_call-IsTrusted test_browser test_server "/deals" post_options post_request "token"
      cookie_found (ne_of_test _ _ refl) refl post_request-Carries
