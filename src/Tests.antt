-- ===== src/Tests.antt =====
-- A small back end and requests to the BFF, on which the theorems are tried.
pub mod Sessions
pub mod Handlers
pub mod Flights
pub mod Forms
pub mod Settings
pub mod Relationships
pub mod Pages
pub mod Conversion
pub mod Clients
pub mod Lost
pub mod Routing
pub mod Hooks
pub mod Toasts
pub mod Board
pub mod Agenda
pub mod Texts
pub mod Shell
use enterprise_crm.Common.{
  ℕ, String, Bool, true, false, Option, none, some, List, [], ◌∷◌, ◌==◌, if◌then◌else◌,
}
use enterprise_crm.Http.{
  Json, str, num, obj, field, end, whole, not_a_number, Method, Url, Response, Settled, responds,
  Request, Server, Call,
}

abbrev pub crm_url : Url
crm_url = record { protocol = "https:"; origin = "https://crm"; search = ""; href = "https://crm/" }

abbrev pub backend_base : Url
backend_base = record {
  protocol = "http:";
  origin = "http://backend";
  search = "";
  href = "http://backend/";
}

abbrev pub answer_json : ℕ → Json → Response
answer_json status j = record {
  status = status;
  headers = ("content-type", "application/json") ∷ ("set-cookie", "tracker") ∷ [];
  has_body = true;
  bytes = some "{}";
  parsed = some j;
}

abbrev pub granted_tokens : Json
granted_tokens = obj (
    field "access_token" (str "new-access")
      (field "refresh_token" (str "new-refresh") (field "expires_in" (num (whole 900)) end)))

abbrev pub known_user : Json
known_user =
    obj (field "id" (str "u1") (field "email" (str "a@b") (field "organization_id" (str "o1") end)))

-- Grants tokens on a login and on a refresh, and knows the user.
abbrev pub answer_of : List Call → Call → Settled
answer_of log call =
    if call.url == "http://backend/auth/refresh"
    then responds 5 (answer_json 200 granted_tokens)
    else if call.url == "http://backend/auth/login"
    then responds 5 (answer_json 200 granted_tokens)
    else responds 5 (answer_json 200 known_user)

abbrev pub test_server : Server
test_server = record {
  backend_api_url = some "http://backend";
  backend_api_timeout_ms = whole 5000;
  auth_refresh_token_max_age_seconds = not_a_number;
  is_production = true;
  parse_url = λ s. some (if s == "http://backend" then backend_base else crm_url);
  random_uuid = "uuid";
  answer = answer_of;
}

-- A request with a session whose access token has expired.
abbrev pub session_jar : List (String × String)
session_jar = ("enterprise_crm_refresh", "old-refresh") ∷ ("enterprise_crm_csrf", "token") ∷ []

abbrev pub credentials : Json
credentials = obj (field "email" (str "a@b") (field "password" (str "secret") end))

abbrev pub post_request : Request
post_request = record {
  method = Method.post;
  url = "https://crm/api/deals";
  headers = ("origin", "https://crm") ∷ ("x-csrf-token", "token") ∷ [];
  cookies = session_jar;
  bytes = some "{}";
  parsed = some credentials;
}

-- The same from another site.
abbrev pub foreign_request : Request
foreign_request = record post_request { headers = ("origin", "https://other") ∷ [] }
