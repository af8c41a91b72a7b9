-- ===== src/Session/Cookies.antt =====
-- shared.ts: the cookies of a session, on a response that has none yet.
use enterprise_crm.Common.{String, true, false, Option, List, [], ◌∷◌, ◌++◌, or_else}
use enterprise_crm.Http.{
  JsNumber, Server, CookieOptions, CookieChange, set_cookie, delete_cookie, NextResponse,
}
use enterprise_crm.Session.Config.{
  access_token_cookie, refresh_token_cookie, csrf_token_cookie, get_refresh_token_max_age,
}
use enterprise_crm.Session.Backend.{BackendTokenResponse}

abbrev pub authentication_cookie_options : Server → JsNumber → CookieOptions
authentication_cookie_options server max_age = record {
  http_only = true;
  max_age = max_age;
  path = "/";
  same_site = "lax";
  secure = server.is_production;
}

abbrev pub csrf_cookie_options : Server → JsNumber → CookieOptions
csrf_cookie_options server max_age = record {
  http_only = false;
  max_age = max_age;
  path = "/";
  same_site = "strict";
  secure = server.is_production;
}

abbrev pub create_csrf_token : Server → String
create_csrf_token server = server.random_uuid

abbrev pub session_cookies : Server → BackendTokenResponse → Option String → List CookieChange
session_cookies server tokens csrf_token =
    set_cookie access_token_cookie tokens.access_token
      (authentication_cookie_options server tokens.expires_in)
    ∷ set_cookie refresh_token_cookie tokens.refresh_token
        (authentication_cookie_options server (get_refresh_token_max_age server))
    ∷ set_cookie csrf_token_cookie (or_else csrf_token (create_csrf_token server))
        (csrf_cookie_options server (get_refresh_token_max_age server))
    ∷ []

abbrev pub set_authentication_cookies :
    Server → NextResponse → BackendTokenResponse → Option String → NextResponse
set_authentication_cookies server response tokens csrf_token = record response {
  cookies = response.cookies ++ session_cookies server tokens csrf_token;
}

abbrev pub no_session_cookies : List CookieChange
no_session_cookies =
    delete_cookie access_token_cookie
    ∷ delete_cookie refresh_token_cookie
    ∷ delete_cookie csrf_token_cookie
    ∷ []

abbrev pub clear_authentication_cookies : NextResponse → NextResponse
clear_authentication_cookies response = record response {
  cookies = response.cookies ++ no_session_cookies;
}
