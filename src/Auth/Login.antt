-- ===== src/Auth/Login.antt =====
-- auth/login/route.ts
pub mod Laws
use enterprise_crm.Common.{
  String, ◌<>◌, Bool, true, false, not, Option, none, some, List, [], ◌∷◌, ◌==◌, ◌&&◌,
  if◌then◌else◌,
}
use enterprise_crm.Common.Text.{is_blank}
use enterprise_crm.Http.{
  Json, str, obj, field, end, get_field, is_object, Method, json, RequestInit, Response, is_ok,
  Request, Server, NextResponse, Result, ok, throw, M, ◌>>=◌, pure, lift, catch, reply, detail,
}
use enterprise_crm.Session.Backend.{
  BackendTokenResponse, backend_request, read_json_safely, is_token_response,
  backend_error_response, response_from_backend_error,
}
use enterprise_crm.Session.Csrf.{require_csrf_protection}
use enterprise_crm.Session.Cookies.{set_authentication_cookies}
use enterprise_crm.Session.Refresh.{json_headers}

abbrev filled : Option Json → Bool
filled (some (str s)) = not (is_blank s)
filled _ = false

-- `password` is not trimmed.
abbrev not_empty : Option Json → Bool
not_empty (some (str s)) = not (s == "")
not_empty _ = false

abbrev is_text : Option Json → Bool
is_text (some (str s)) = true
is_text _ = false

abbrev missing_or_text : Option Json → Bool
missing_or_text none = true
missing_or_text (some (str s)) = true
missing_or_text _ = false

unfoldable pub is_login_credentials : Json → Bool
is_login_credentials value =
    is_object value
    && filled (get_field "email" value)
    && not_empty (get_field "password" value)
    && missing_or_text (get_field "mfa_code" value)

-- The type guard, with the value that it guards.
unfoldable pub is_authenticated_user : Option Json → Option Json
is_authenticated_user none = none
is_authenticated_user (some value) =
    if is_object value
      && is_text (get_field "id" value)
      && is_text (get_field "email" value)
      && is_text (get_field "organization_id" value)
    then some value
    else none

abbrev pub login_init : Json → RequestInit
login_init credentials = record {
  method = Method.post;
  headers = json_headers;
  body = some (json credentials);
}

abbrev pub me_init : String → RequestInit
me_init access_token = record {
  method = Method.get;
  headers = ("authorization", "Bearer " <> access_token) ∷ [];
  body = none;
}

abbrev no_session : NextResponse
no_session = reply (detail "Unable to establish an authenticated session") 502

-- From the second call on, with the tokens of the first.
unfoldable pub establish : Server → BackendTokenResponse → Response → NextResponse
establish server tokens r =
    if is_ok r
    then elim (is_authenticated_user (read_json_safely r)) [
      | none ↦ no_session
      | some user ↦
          set_authentication_cookies server (reply (obj (field "user" user end)) 200) tokens none
    ]
    else no_session

-- From `if (!loginResponse.ok)` on.
unfoldable pub continue_login : Server → Response → M NextResponse
continue_login server r =
    if is_ok r
    then elim (is_token_response (read_json_safely r)) [
      | none ↦ pure (reply (detail "Authentication service returned an invalid response") 502)
      | some tokens ↦ backend_request server "/auth/me" (me_init tokens.access_token) >>= λ me.
          pure (establish server tokens me)
    ]
    else lift (response_from_backend_error r (read_json_safely r))

unfoldable pub sign_in : Server → Json → M NextResponse
unfolding continue_login establish
sign_in server credentials =
    backend_request server "/auth/login" (login_init credentials) >>= λ r. continue_login server r

-- From `request.json()` on.
unfoldable pub login_with : Server → Option Json → M NextResponse
unfolding sign_in
login_with server none = pure (reply (detail "Invalid login request") 400)
login_with server (some credentials) =
    if is_login_credentials credentials
    then catch (sign_in server credentials) backend_error_response
    else pure (reply (detail "Email and password are required") 400)

unfoldable pub login : Server → Request → M NextResponse
unfolding login_with
login server request = elim (require_csrf_protection server request false) [
  | some failure ↦ pure failure
  | none ↦ login_with server request.parsed
]
