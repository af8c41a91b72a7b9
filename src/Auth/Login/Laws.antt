-- ===== src/Auth/Login/Laws.antt =====
-- auth/login/route.ts: when a session is opened.
use enterprise_crm.Common.{
  true, false, Option, none, some, List, [], ◌≡◌, refl, ap, ◌⊎◌, inl, inr, arith, Option-cases,
  Bool-cases,
}
use enterprise_crm.Http.{
  Json, obj, field, end, Request, Server, Call, Response, is_ok, Thrown, Result, ok, throw,
  NextResponse, json_body, reply, OnOk, OnOk-bind_eq, Returns, Returns-catch,
}
use enterprise_crm.Session.Backend.{
  BackendTokenResponse, backend_request, read_json_safely, is_token_response,
  backend_error_response, response_from_backend_error,
}
use enterprise_crm.Session.Cookies.{session_cookies, set_authentication_cookies}
use enterprise_crm.Session.Csrf.{require_csrf_protection}
use enterprise_crm.Session.Csrf.Laws.{
  IsTrusted, require_csrf_protection_iff, require_csrf_protection-403,
}
use enterprise_crm.Proxy.Changes.{response_from_backend_error_cookies}
use enterprise_crm.Auth.Login.{
  login_init, me_init, is_login_credentials, is_authenticated_user, establish, continue_login,
  sign_in, login_with, login,
}

module _ (server : Server) (request : Request) (log : List Call) where
  -- A session was opened: what the request and the back end have to bring.
  pub record IsOpened (out : NextResponse) : Type 0 where
    pub trusted : IsTrusted server request false
    pub credentials : Json
    pub sent : request.parsed ≡ some credentials
    pub complete : is_login_credentials credentials ≡ true
    pub first : Response
    pub first_answer :
        (backend_request server "/auth/login" (login_init credentials) log).0 ≡ ok first
    pub first_ok : is_ok first ≡ true
    pub tokens : BackendTokenResponse
    pub granted : is_token_response (read_json_safely first) ≡ some tokens
    pub second : Response
    pub second_answer :
        (backend_request server "/auth/me"
          (me_init tokens.access_token)
          (backend_request server "/auth/login" (login_init credentials) log).1).0
        ≡ ok second
    pub second_ok : is_ok second ≡ true
    pub user : Json
    pub known : is_authenticated_user (read_json_safely second) ≡ some user
    pub cookies_set : out.cookies ≡ session_cookies server tokens none
    pub body_shown : out.body ≡ json_body (obj (field "user" user end))

  -- Either nothing was opened, and no cookie is set, or all of the above holds.
  abbrev pub Outcome : NextResponse → Type 0
  Outcome out = (out.cookies ≡ []) ⊎ IsOpened out

no_cookies-Outcome :
    (server : Server) (request : Request) (log : List Call) (r : Result NextResponse)
    → OnOk (λ out. out.cookies ≡ []) r
    → OnOk (Outcome server request log) r
no_cookies-Outcome server request log (ok a) h = inl h
no_cookies-Outcome server request log (throw e) h = tt

pub backend_error_response_cookies : (e : Thrown) → (backend_error_response e).cookies ≡ []
unfolding backend_error_response
backend_error_response_cookies e = ground arith

-- The last step's answer where the user is known, and else.
establish_known :
    (server : Server) (tokens : BackendTokenResponse) (r : Response) (user : Json)
    → is_ok r ≡ true
    → is_authenticated_user (read_json_safely r) ≡ some user
    → establish server tokens r
      ≡ set_authentication_cookies server (reply (obj (field "user" user end)) 200) tokens none
unfolding establish
establish_known server tokens r user fine known = rw (fine, establish) (rw (known, establish))

establish_cases :
    (server : Server) (tokens : BackendTokenResponse) (r : Response)
    → ((establish server tokens r).cookies ≡ [])
      ⊎ ((user : Json) × (is_ok r ≡ true)
          × (is_authenticated_user (read_json_safely r) ≡ some user))
unfolding establish
establish_cases server tokens r = elim (Bool-cases (is_ok r)) [
  | inr failed ↦ inl (rw (failed, establish))
  | inl fine ↦ elim (Option-cases (is_authenticated_user (read_json_safely r))) [
    | inl unknown ↦ inl (rw (fine, establish) (rw (unknown, establish)))
    | inr (user, known) ↦ inr (user, fine, known)
  ]
]

module _ (server : Server) (request : Request) (log : List Call)
    (trusted : IsTrusted server request false) (credentials : Json)
    (sent : request.parsed ≡ some credentials)
    (complete : is_login_credentials credentials ≡ true) where
  after_first : List Call
  after_first = (backend_request server "/auth/login" (login_init credentials) log).1

  second-Outcome :
      (first : Response) (tokens : BackendTokenResponse) (second : Response)
      → (backend_request server "/auth/login" (login_init credentials) log).0 ≡ ok first
      → is_ok first ≡ true
      → is_token_response (read_json_safely first) ≡ some tokens
      → (backend_request server "/auth/me" (me_init tokens.access_token) after_first).0 ≡ ok second
      → Outcome server request log (establish server tokens second)
  unfolding after_first
  second-Outcome first tokens second answered fine granted again =
      elim (establish_cases server tokens second) [
        | inl nothing ↦ inl nothing
        | inr (user, good, known) ↦
            let e = establish_known server tokens second user good known in
            inr (record {
              trusted = trusted;
              credentials = credentials;
              sent = sent;
              complete = complete;
              first = first;
              first_answer = answered;
              first_ok = fine;
              tokens = tokens;
              granted = granted;
              second = second;
              second_answer = again;
              second_ok = good;
              user = user;
              known = known;
              cookies_set = ap (λ (out : NextResponse). out.cookies) e;
              body_shown = ap (λ (out : NextResponse). out.body) e;
            })
      ]

  continue-Outcome :
      (first : Response)
      → (backend_request server "/auth/login" (login_init credentials) log).0 ≡ ok first
      → OnOk (Outcome server request log) (continue_login server first after_first).0
  unfolding continue_login
  continue-Outcome first answered = elim (Bool-cases (is_ok first)) [
    | inr failed ↦
        rw (failed, continue_login)
          (no_cookies-Outcome server request log
            (response_from_backend_error first (read_json_safely first))
            (response_from_backend_error_cookies first (read_json_safely first)))
    | inl fine ↦ elim (Option-cases (is_token_response (read_json_safely first))) [
      | inl refused ↦ rw (fine, continue_login) (rw (refused, continue_login) (inl refl))
      | inr (tokens, granted) ↦
          rw (fine, continue_login)
            (rw (granted, continue_login)
              (OnOk-bind_eq (Outcome server request log) _ _ _
                (λ second again. second-Outcome first tokens second answered fine granted again)))
    ]
  ]

  sign_in-Outcome : OnOk (Outcome server request log) (sign_in server credentials log).0
  unfolding sign_in after_first
  sign_in-Outcome = OnOk-bind_eq (Outcome server request log) _ _ _ continue-Outcome

credentials-Outcome :
    (server : Server) (request : Request) (log : List Call)
    → IsTrusted server request false
    → (parsed : Option Json) → request.parsed ≡ parsed
    → Returns (Outcome server request log) (login_with server parsed log).0
unfolding login_with
credentials-Outcome server request log trusted none e = inl refl
credentials-Outcome server request log trusted (some credentials) e =
    elim (Bool-cases (is_login_credentials credentials)) [
      | inr incomplete ↦ rw (incomplete, login_with) (inl refl)
      | inl complete ↦
          rw (complete, login_with)
            (Returns-catch (Outcome server request log) (sign_in server credentials)
              backend_error_response log
              (sign_in-Outcome server request log trusted credentials e complete)
              (λ t h. inl (backend_error_response_cookies t)))
    ]

-- A login always returns a response. It sets cookies only where the request is trusted and brings
-- complete credentials, the back end grants tokens for them, and, asked with the new access token,
-- names the user; then it sets these tokens with a fresh CSRF token, and shows this user.
pub login-Outcome :
    (server : Server) (request : Request) (log : List Call)
    → Returns (Outcome server request log) (login server request log).0
unfolding login
login-Outcome server request log =
    elim (Option-cases (require_csrf_protection server request false)) [
      | inl passed ↦
          rw (passed, login)
            (credentials-Outcome server request log
              ((require_csrf_protection_iff server request false).0 passed) request.parsed refl)
      | inr (failure, blocked) ↦
          rw (blocked, login)
            (inl (require_csrf_protection-403 server request false failure blocked).1)
    ]
