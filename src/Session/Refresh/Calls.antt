-- ===== src/Session/Refresh/Calls.antt =====
-- shared.ts: which calls of the back end an authenticated request makes, and in which order.
use enterprise_crm.Common.{
  ◌+◌, ◌≤◌, String, Bool, true, false, Option, none, some, List, ◌∷◌, ◌≡◌, refl, ap, ◌⊎◌, inl, inr,
  arith, eqb, length, Option-cases, Bool-cases,
}
use enterprise_crm.Http.{
  RequestInit, Call, Response, Server, truthy, Thrown, Result, ok, throw, bind_result, Result-cases,
}
use enterprise_crm.Http.Headers
use enterprise_crm.Session.Config.{access_token_cookie, refresh_token_cookie, backend_url}
use enterprise_crm.Session.Backend.{BackendTokenResponse, accept_json, send, backend_request}
use enterprise_crm.Session.Refresh.{
  refresh_init, perform_refresh_access_token, with_authorization, retry, refresh_and_retry,
  first_response, authenticated_backend_request,
}

-- One call was sent, or none where the back end's address is not configured.
abbrev pub Sent : Server → String → RequestInit → List Call → List Call → Type 0
Sent server path init before after =
    ((e : Thrown) × (backend_url server path ≡ throw e) × (after ≡ before))
    ⊎ ((url : String) × (backend_url server path ≡ ok url)
        × (after ≡ record { url = url; init = accept_json init } ∷ before))

pub backend_request-Sent :
    (server : Server) (path : String) (init : RequestInit) (log : List Call)
    → Sent server path init log (backend_request server path init log).1
unfolding backend_request
backend_request-Sent server path init log = elim (Result-cases (backend_url server path)) [
  | inl (url, e) ↦ inr (url, e, rw (e, send))
  | inr (t, e) ↦ inl (t, e, rw (e, send))
]

-- The cookie is there and not empty.
abbrev pub Holds : String → List (String × String) → String → Type 0
Holds name jar token = truthy (Headers.get name jar) ≡ some token

abbrev pub Lacks : String → List (String × String) → Type 0
Lacks name jar = truthy (Headers.get name jar) ≡ none

module _ (server : Server) (jar : List (String × String)) (path : String) (init : RequestInit) where
  -- The first attempt failed: there is no access token, or its call was answered by 401.
  pub data Unauthorized (log : List Call) : List Call → Type 0 where
    no_token : Lacks access_token_cookie jar → Unauthorized log log
    rejected :
        {after : List Call} (token : String) (r : Response)
        → Holds access_token_cookie jar token
        → (backend_request server path (with_authorization init token) log).0 ≡ ok r
        → r.status ≡ 401
        → Sent server path (with_authorization init token) log after
        → Unauthorized log after

  -- The calls that lead from the first log to the second.
  pub data Exchanged (log : List Call) : List Call → Type 0 where
    attempted :
        {after : List Call} (token : String)
        → Holds access_token_cookie jar token
        → Sent server path (with_authorization init token) log after
        → Exchanged log after
    gave_up :
        {after : List Call}
        → Unauthorized log after
        → Lacks refresh_token_cookie jar
        → Exchanged log after
    refreshed :
        {between after : List Call} (token : String)
        → Unauthorized log between
        → Holds refresh_token_cookie jar token
        → Sent server "/auth/refresh" (refresh_init token) between after
        → Exchanged log after
    retried :
        {first second after : List Call} (token : String) (tokens : BackendTokenResponse)
        → Unauthorized log first
        → Holds refresh_token_cookie jar token
        → Sent server "/auth/refresh" (refresh_init token) first second
        → (perform_refresh_access_token server token first).0 ≡ ok (some tokens)
        → Sent server path (with_authorization init tokens.access_token) second after
        → Exchanged log after

  refresh_log :
      (token : String) (log : List Call)
      → (perform_refresh_access_token server token log).1
        ≡ (backend_request server "/auth/refresh" (refresh_init token) log).1
  unfolding perform_refresh_access_token
  refresh_log token log = ground arith

  refresh-Sent :
      (token : String) (log : List Call)
      → Sent server "/auth/refresh"
          (refresh_init token)
          log
          (perform_refresh_access_token server token log).1
  refresh-Sent token log =
      rw (refresh_log token log)
        (backend_request-Sent server "/auth/refresh" (refresh_init token) log)

  retry_log :
      (initial : Option Response) (tokens : BackendTokenResponse) (log : List Call)
      → (retry server jar path init initial (some tokens) log).1
        ≡ (backend_request server path (with_authorization init tokens.access_token) log).1
  unfolding retry
  retry_log initial tokens log = ground arith

  retry-none_log :
      (initial : Option Response) (log : List Call)
      → (retry server jar path init initial none log).1 ≡ log
  unfolding retry
  retry-none_log initial log = refl

  retry-Exchanged :
      {log first second : List Call} (token : String) (initial : Option Response)
      (got : Result (Option BackendTokenResponse))
      → Unauthorized log first
      → Holds refresh_token_cookie jar token
      → Sent server "/auth/refresh" (refresh_init token) first second
      → (perform_refresh_access_token server token first).0 ≡ got
      → Exchanged log (bind_result got second (retry server jar path init initial)).1
  retry-Exchanged token initial (throw e) u h s eq = refreshed token u h s
  retry-Exchanged token initial (ok none) u h s eq =
      rw (retry-none_log initial _) (refreshed token u h s)
  retry-Exchanged {second} token initial (ok (some tokens)) u h s eq =
      retried token tokens u h s eq (
        rw (retry_log initial tokens second)
          (backend_request-Sent server path (with_authorization init tokens.access_token) second))

  refresh_and_retry-Exchanged :
      {log first : List Call} (initial : Option Response) (flag : Bool)
      → Unauthorized log first
      → Exchanged log (refresh_and_retry server jar path init initial flag first).1
  unfolding refresh_and_retry
  refresh_and_retry-Exchanged {first} initial flag u =
      elim (Option-cases (truthy (Headers.get refresh_token_cookie jar))) [
        | inl lacks ↦ rw (lacks, refresh_and_retry) (gave_up u lacks)
        | inr (token, holds) ↦
            rw (holds, refresh_and_retry)
              (retry-Exchanged token initial _ u holds (refresh-Sent token first) refl)
      ]

  first_response-Exchanged :
      {log after : List Call} (token : String) (got : Result Response)
      → Holds access_token_cookie jar token
      → Sent server path (with_authorization init token) log after
      → (backend_request server path (with_authorization init token) log).0 ≡ got
      → Exchanged log (bind_result got after (first_response server jar path init)).1
  unfolding first_response
  first_response-Exchanged token (throw e) h s eq = attempted token h s
  first_response-Exchanged {after} token (ok r) h s eq = elim (Bool-cases (eqb r.status 401)) [
    | inl denied ↦
        rw (denied, first_response)
          (refresh_and_retry-Exchanged (some r) false (rejected token r h eq (ground arith) s))
    | inr fine ↦ rw (fine, first_response) (attempted token h s)
  ]

  -- Of the calls that an authenticated request makes, the first carries the access token of the
  -- cookie, and is left out where there is none; the refresh token is spent only after that call
  -- was left out or was answered by 401; and the request is sent again, once, only after a refresh
  -- that gave tokens, with the access token among them.
  pub authenticated_backend_request-Exchanged :
      (log : List Call) → Exchanged log (authenticated_backend_request server jar path init log).1
  unfolding authenticated_backend_request
  authenticated_backend_request-Exchanged log =
      elim (Option-cases (truthy (Headers.get access_token_cookie jar))) [
        | inl lacks ↦
            rw (lacks, authenticated_backend_request)
              (refresh_and_retry-Exchanged none true (no_token lacks))
        | inr (token, holds) ↦
            rw (holds, authenticated_backend_request)
              (first_response-Exchanged token _ holds
                (backend_request-Sent server path (with_authorization init token) log) refl)
      ]

length-Sent :
    (server : Server) (path : String) (init : RequestInit) (before after : List Call)
    → Sent server path init before after
    → length after ≤ length before + 1
length-Sent server path init before after (inl (e, _, same)) = omega (arith, ap length same)
length-Sent server path init before after (inr (url, _, more)) = omega (arith, ap length more)

module _ (server : Server) (jar : List (String × String)) (path : String) (init : RequestInit) where
  length-Unauthorized :
      {log after : List Call}
      → Unauthorized server jar path init log after
      → length after ≤ length log + 1
  length-Unauthorized (no_token _) = omega arith
  length-Unauthorized {log} {after} (rejected token r _ _ _ s) =
      length-Sent server path (with_authorization init token) log after s

  length-Exchanged :
      {log after : List Call}
      → Exchanged server jar path init log after
      → length after ≤ length log + 3
  length-Exchanged {log} {after} (attempted token _ s) =
      omega (arith, length-Sent server path (with_authorization init token) log after s)
  length-Exchanged (gave_up u _) = omega (arith, length-Unauthorized u)
  length-Exchanged (refreshed {between} {after} token u _ s) = omega (
    arith,
    length-Unauthorized u,
    length-Sent server "/auth/refresh" (refresh_init token) between after s,
  )
  length-Exchanged (retried {first} {second} {after} token tokens u _ s _ t) = omega (
    arith,
    length-Unauthorized u,
    length-Sent server "/auth/refresh" (refresh_init token) first second s,
    length-Sent server path (with_authorization init tokens.access_token) second after t,
  )

  -- However the back end answers, an authenticated request makes at most three calls of it.
  pub length-authenticated_backend_request :
      (log : List Call)
      → length (authenticated_backend_request server jar path init log).1 ≤ length log + 3
  length-authenticated_backend_request log =
      length-Exchanged (authenticated_backend_request-Exchanged server jar path init log)
