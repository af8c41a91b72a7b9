-- ===== src/Proxy/Answers.antt =====
-- proxy.ts: every answer of the proxy.
use enterprise_crm.Common.{
  String, ◌<>◌, true, Option, none, some, List, [], ◌≡◌, refl, inl, inr, Option-cases,
}
use enterprise_crm.Http.{
  Call, Request, Server, Url, Thrown, ok, throw, M, NextResponse, Returns, Returns-catch, OnOk,
  OnOk-bind_eq, OnOk-of_eq, or_throw, other_error, or_throw-eq-ok, or_throw-eq-throw, >>=-eq-throw,
  Payload,
}
use enterprise_crm.Session.Backend.{backend_error_response}
use enterprise_crm.Session.Csrf.{require_csrf_protection}
use enterprise_crm.Session.Csrf.Laws.{
  IsTrusted, require_csrf_protection_iff, require_csrf_protection-403,
}
use enterprise_crm.Session.Refresh.{AuthenticatedBackendResult, authenticated_backend_request}
use enterprise_crm.Session.Refresh.Laws.{authenticated_backend_request-IsCoherent}
use enterprise_crm.Proxy.{forward_init, read_body, respond, forward, proxy_api_request}
use enterprise_crm.Proxy.Changes.{FollowsSession}
use enterprise_crm.Proxy.Faithful.{Shows, respond-FollowsSession}

module _ (server : Server) (path : String) (request : Request) where
  -- The authenticated call that stands for the request.
  abbrev pub call_for : Url → Option Payload → M AuthenticatedBackendResult
  call_for url body =
      authenticated_backend_request server request.cookies (path <> url.search)
        (forward_init request body)

  -- Why a trusted request may fail: its body or its URL cannot be read, the back end cannot be
  -- reached, or its answer breaks off or cannot be passed on.
  pub data Fails (log : List Call) (e : Thrown) : Type 0 where
    unreadable : read_body request ≡ throw e → Fails log e
    no_url : server.parse_url request.url ≡ none → Fails log e
    unreached :
        (url : Url) (body : Option Payload)
        → server.parse_url request.url ≡ some url
        → read_body request ≡ ok body
        → (call_for url body log).0 ≡ throw e
        → Fails log e
    cut_off :
        (url : Url) (body : Option Payload) (result : AuthenticatedBackendResult)
        → server.parse_url request.url ≡ some url
        → read_body request ≡ ok body
        → (call_for url body log).0 ≡ ok result
        → respond server result ≡ throw e
        → Fails log e

  -- The answers that the proxy may give.
  pub data Answer (log : List Call) (out : NextResponse) : Type 0 where
    rejected :
        ¬ IsTrusted server request true → out.status ≡ 403 → out.cookies ≡ [] → Answer log out
    failed :
        IsTrusted server request true
        → (e : Thrown) → Fails log e
        → out ≡ backend_error_response e
        → Answer log out
    forwarded :
        IsTrusted server request true
        → (url : Url) (body : Option Payload) (result : AuthenticatedBackendResult)
        → server.parse_url request.url ≡ some url
        → read_body request ≡ ok body
        → (call_for url body log).0 ≡ ok result
        → Shows result.response out
        → FollowsSession server request.cookies result out
        → Answer log out

  respond-Answer :
      IsTrusted server request true
      → (log : List Call) (url : Url) (body : Option Payload) (result : AuthenticatedBackendResult)
      → server.parse_url request.url ≡ some url
      → read_body request ≡ ok body
      → (call_for url body log).0 ≡ ok result
      → OnOk (Answer log) (respond server result)
  respond-Answer trusted log url body result parsed read made =
      let coherent =
        authenticated_backend_request-IsCoherent server request.cookies (path <> url.search)
          (forward_init request body) log result made in
      OnOk-of_eq (Answer log) (respond server result) λ out e.
        let (shows, follows) =
          respond-FollowsSession server request.cookies result out coherent e in
        forwarded trusted url body result parsed read made shows follows

  forward-Answer :
      IsTrusted server request true
      → (log : List Call) → OnOk (Answer log) (forward server path request log).0
  unfolding forward
  forward-Answer trusted log = OnOk-bind_eq (Answer log) (read_body request) log _ λ body read.
      OnOk-bind_eq (Answer log) (or_throw (server.parse_url request.url) other_error) log _
        λ url parsed.
          OnOk-bind_eq (Answer log) (call_for url body log).0 (call_for url body log).1 _
            λ result made.
              respond-Answer trusted log url body result (or_throw-eq-ok _ _ url parsed) read made

  forward-Fails :
      (log : List Call) (e : Thrown) → (forward server path request log).0 ≡ throw e → Fails log e
  unfolding forward
  forward-Fails log e h = elim (>>=-eq-throw (read_body request) log _ e h) [
    | inl broken ↦ unreadable broken
    | inr (body, read, h') ↦
        elim (>>=-eq-throw (or_throw (server.parse_url request.url) other_error) log _ e h') [
          | inl none_parsed ↦ no_url (or_throw-eq-throw _ _ e none_parsed).0
          | inr (url, parsed, h'') ↦
              elim (>>=-eq-throw (call_for url body log).0 (call_for url body log).1 _ e h'') [
                | inl lost ↦ unreached url body (or_throw-eq-ok _ _ url parsed) read lost
                | inr (result, made, broken) ↦
                    cut_off url body result (or_throw-eq-ok _ _ url parsed) read made broken
              ]
        ]
  ]

  blocked-untrusted :
      (failure : NextResponse)
      → require_csrf_protection server request true ≡ some failure
      → ¬ IsTrusted server request true
  blocked-untrusted failure blocked trusted =
      cc (blocked, (require_csrf_protection_iff server request true).1 trusted)

  -- Every request is answered, whatever the back end does. One that is not trusted gets a 403 that
  -- leaves the session alone. A trusted one gets the error response for what went wrong, or the
  -- back end's answer to the authenticated call that stands for the request, where the client's
  -- session follows the back end's.
  pub proxy_api_request-Answer :
      (log : List Call) → Returns (Answer log) (proxy_api_request server path request log).0
  unfolding proxy_api_request
  proxy_api_request-Answer log = elim (Option-cases (require_csrf_protection server request true)) [
    | inl passed ↦
        let trusted = (require_csrf_protection_iff server request true).0 passed in
        rw (passed, proxy_api_request)
          (Returns-catch (Answer log) (forward server path request) backend_error_response log
            (forward-Answer trusted log) (λ e h. failed trusted e (forward-Fails log e h) refl))
    | inr (failure, blocked) ↦
        let (status, none_set) = require_csrf_protection-403 server request true failure blocked in
        rw (blocked, proxy_api_request)
          (rejected (blocked-untrusted failure blocked) status none_set)
  ]

  -- A request that is not trusted does not reach the back end.
  pub proxy_api_request_untrusted :
      (log : List Call)
      → ¬ IsTrusted server request true
      → (proxy_api_request server path request log).1 ≡ log
  unfolding proxy_api_request
  proxy_api_request_untrusted log h =
      elim (Option-cases (require_csrf_protection server request true)) [
        | inl passed ↦ absurd (h ((require_csrf_protection_iff server request true).0 passed))
        | inr (failure, blocked) ↦ rw (blocked, proxy_api_request)
      ]
