-- ===== src/Session/Refresh.antt =====
-- shared.ts: an authenticated call, which refreshes the access token once when it has to.
pub mod Laws
pub mod Calls
pub mod Lost
use enterprise_crm.Common.{
  ℕ, String, ◌<>◌, Bool, true, false, Option, none, some, List, [], ◌∷◌, ◌||◌, leb, eqb,
  if◌then◌else◌,
}
use enterprise_crm.Http.{
  obj, str, field, end, Method, Payload, json, RequestInit, Response, is_ok, Request, Server,
  truthy, backend_request_error, invalid_response, unavailable, Result, ok, throw, M, ◌>>=◌, pure,
  raise, lift,
}
use enterprise_crm.Http.Headers
use enterprise_crm.Session.Config.{access_token_cookie, refresh_token_cookie, csrf_token_cookie}
use enterprise_crm.Session.Backend.{
  BackendTokenResponse, backend_request, read_json_safely, is_token_response,
}

pub record AuthenticatedBackendResult : Type 0 where
  pub csrf_token : Option String
  pub refreshed_tokens : Option BackendTokenResponse
  pub response : Option Response
  pub should_clear_session : Bool

abbrev pub json_headers : Headers.Headers
json_headers = ("content-type", "application/json") ∷ []

abbrev pub refresh_init : String → RequestInit
refresh_init refresh_token = record {
  method = Method.post;
  headers = json_headers;
  body = some (json (obj (field "refresh_token" (str refresh_token) end)));
}

abbrev accept_tokens : Option BackendTokenResponse → Result (Option BackendTokenResponse)
accept_tokens none = throw (backend_request_error invalid_response)
accept_tokens (some tokens) = ok (some tokens)

-- What the refresh answer means: tokens, a refusal (`null`), or an error.
unfoldable pub refresh_result : Response → Result (Option BackendTokenResponse)
refresh_result r =
    if is_ok r
    then accept_tokens (is_token_response (read_json_safely r))
    else if leb 500 r.status
    then throw (backend_request_error unavailable)
    else ok none

unfoldable pub perform_refresh_access_token : Server → String → M (Option BackendTokenResponse)
perform_refresh_access_token server refresh_token = do
  r ← backend_request server "/auth/refresh" (refresh_init refresh_token)
  lift (refresh_result r)

abbrev pub with_authorization : RequestInit → String → RequestInit
with_authorization init access_token = record init {
  headers = Headers.set "authorization" ("Bearer " <> access_token) init.headers;
}

abbrev pub is_unauthorized : Option Response → Bool
is_unauthorized none = false
is_unauthorized (some r) = eqb r.status 401

module _ (server : Server) (jar : List (String × String)) (path : String) (init : RequestInit) where
  abbrev csrf_token : Option String
  csrf_token = Headers.get csrf_token_cookie jar

  -- The last lines: the refresh has answered, and the call is made again with the new token.
  retry : Option Response → Option BackendTokenResponse → M AuthenticatedBackendResult
  retry initial none = pure (record {
    csrf_token = csrf_token;
    refreshed_tokens = none;
    response = initial;
    should_clear_session = true;
  })
  retry initial (some tokens) = do
    r ← backend_request server path (with_authorization init tokens.access_token)
    pure (record {
      csrf_token = csrf_token;
      refreshed_tokens = some tokens;
      response = some r;
      should_clear_session = eqb r.status 401;
    })

  -- From `if (!refreshToken)` on; the flag is `!accessToken`.
  refresh_and_retry : Option Response → Bool → M AuthenticatedBackendResult
  refresh_and_retry initial no_access = elim (truthy (Headers.get refresh_token_cookie jar)) [
    | none ↦ pure (record {
      csrf_token = csrf_token;
      refreshed_tokens = none;
      response = initial;
      should_clear_session = is_unauthorized initial || no_access;
    })
    | some refresh_token ↦
        perform_refresh_access_token server refresh_token >>= λ tokens. retry initial tokens
  ]

  first_response : Response → M AuthenticatedBackendResult
  first_response r =
      if eqb r.status 401
      then refresh_and_retry (some r) false
      else pure (record {
        csrf_token = csrf_token;
        refreshed_tokens = none;
        response = some r;
        should_clear_session = false;
      })

  unfoldable pub authenticated_backend_request : M AuthenticatedBackendResult
  unfolding refresh_and_retry retry first_response
  authenticated_backend_request = elim (truthy (Headers.get access_token_cookie jar)) [
    | none ↦ refresh_and_retry none true
    | some access_token ↦
        backend_request server path (with_authorization init access_token) >>= λ r. first_response r
  ]

-- The tokens of `refreshCurrentSession`, and the CSRF token to keep.
unfoldable pub refresh_current_session :
    Server → List (String × String) → M (Option String × Option BackendTokenResponse)
unfolding perform_refresh_access_token
refresh_current_session server jar = elim (truthy (Headers.get refresh_token_cookie jar)) [
  | none ↦ pure (none, none)
  | some refresh_token ↦ do
    tokens ← perform_refresh_access_token server refresh_token
    pure (Headers.get csrf_token_cookie jar, tokens)
]
