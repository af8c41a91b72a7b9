-- ===== src/Routes/Stream/Laws.antt =====
-- app/api/v3/ai/copilot/stream/route.ts: what becomes of the session, and of errors.
use enterprise_crm.Common.{
  String, true, Option, none, some, List, [], ◌≡◌, refl, ap, sym, subst, ◌++◌, ◌∙◌, inl, inr, arith,
  ◌&&◌, Bool-cases,
}
use enterprise_crm.Http.{
  Response, is_ok, Request, Server, Call, Thrown, ok, throw, NextResponse, bind_result, OnOk,
  OnOk-map, OnOk-bind_of_ok, bind_result-throw, or_throw, other_error,
}
use enterprise_crm.Http.Headers
use enterprise_crm.Session.Config.{csrf_token_cookie}
use enterprise_crm.Session.Backend.{BackendTokenResponse, read_json_safely}
use mathlib.Core.Option.{some-injective}
use enterprise_crm.Session.Cookies.{session_cookies}
use enterprise_crm.Session.Csrf.{require_csrf_protection}
use enterprise_crm.Session.Refresh.{AuthenticatedBackendResult, authenticated_backend_request}
use enterprise_crm.Session.Refresh.Laws.{
  NotSignedIn, IsCoherent, authenticated_backend_request-IsCoherent,
}
use enterprise_crm.Proxy.{set_refreshed}
use enterprise_crm.Proxy.Changes.{
  FollowsSession, changes_of-FollowsSession, with_session_changes_cookies,
  response_from_backend_error_cookies,
}
use enterprise_crm.Routes.Stream.{event_stream, stream_init, stream_to, ask, copilot_stream}

-- A streamed answer is not a 401.
streams-NotSignedIn : (r : Response) → is_ok r && r.has_body ≡ true → ¬ NotSignedIn (some r)
streams-NotSignedIn r h e = ground arith

set_refreshed-FollowsSession :
    (server : Server) (jar : List (String × String)) (result : AuthenticatedBackendResult)
    (tokens : Option BackendTokenResponse) (out : NextResponse)
    → result.refreshed_tokens ≡ tokens
    → result.csrf_token ≡ Headers.get csrf_token_cookie jar
    → ¬ NotSignedIn result.response
    → out.cookies ≡ []
    → FollowsSession server jar result (set_refreshed server out tokens result.csrf_token)
set_refreshed-FollowsSession server jar result none out e k signed_in fresh = record {
  ended = λ h. absurd (signed_in h);
  renewed = λ tokens h t. cc;
  kept = λ h t. fresh;
}
set_refreshed-FollowsSession server jar result (some tokens) out e k signed_in fresh = record {
  ended = λ h. absurd (signed_in h);
  renewed = λ tokens' h t.
      λ i. fresh i ++ session_cookies server (some-injective tokens tokens' (sym e ∙ t) i) (k i);
  kept = λ h t. cc;
}

stream_to-FollowsSession :
    (server : Server) (jar : List (String × String)) (result : AuthenticatedBackendResult)
    (response : Option Response)
    → IsCoherent jar result
    → result.response ≡ response
    → OnOk (FollowsSession server jar result) (stream_to server result response)
unfolding stream_to
stream_to-FollowsSession server jar result none coherent e =
    let gone : NotSignedIn result.response = subst NotSignedIn (sym e) tt in
    record {
      ended = λ h. refl;
      renewed = λ tokens h t. absurd (h gone);
      kept = λ h t. absurd (h gone);
    }
stream_to-FollowsSession server jar result (some r) coherent e =
    elim (Bool-cases (is_ok r && r.has_body)) [
      | inl streams ↦
          rw (streams, stream_to)
            (set_refreshed-FollowsSession server jar result result.refreshed_tokens (event_stream r)
              refl coherent.csrf_kept (λ h. streams-NotSignedIn r streams (subst NotSignedIn e h))
              refl)
      | inr other ↦
          rw (other, stream_to)
            (OnOk-map
              (λ out cookies. changes_of-FollowsSession server jar result out coherent cookies) _
              (with_session_changes_cookies server result _
                (response_from_backend_error_cookies r (read_json_safely r))))
    ]

copilot_stream-eq-ask :
    (server : Server) (request : Request) (log : List Call) (body : String)
    → require_csrf_protection server request true ≡ none
    → request.bytes ≡ some body
    → copilot_stream server request log ≡ ask server request body log
unfolding copilot_stream
copilot_stream-eq-ask server request log body passed read =
    rw (passed, copilot_stream)
      (ap (λ o. bind_result (or_throw o other_error) log (ask server request)) read)

-- Also on the streaming route the client's session follows the back end's, although the handler
-- does not look at the flag that says when to end it where there is no answer or the answer streams.
pub copilot_stream-FollowsSession :
    (server : Server) (request : Request) (log : List Call) (body : String)
    (result : AuthenticatedBackendResult)
    → require_csrf_protection server request true ≡ none
    → request.bytes ≡ some body
    → (authenticated_backend_request server request.cookies "/v3/ai/copilot/stream"
        (stream_init body)
        log).0
      ≡ ok result
    → OnOk (FollowsSession server request.cookies result) (copilot_stream server request log).0
unfolding ask
copilot_stream-FollowsSession server request log body result passed read made =
    let P = FollowsSession server request.cookies result in
    let coherent =
      authenticated_backend_request-IsCoherent server request.cookies "/v3/ai/copilot/stream"
        (stream_init body) log result made in
    rw (copilot_stream-eq-ask server request log body passed read) (
      OnOk-bind_of_ok P _ _ _ result made
        (stream_to-FollowsSession server request.cookies result result.response coherent refl))

-- The streaming route has no handler for errors: what the authenticated call throws, it throws.
pub copilot_stream_throws :
    (server : Server) (request : Request) (log : List Call) (body : String) (e : Thrown)
    → require_csrf_protection server request true ≡ none
    → request.bytes ≡ some body
    → (authenticated_backend_request server request.cookies "/v3/ai/copilot/stream"
        (stream_init body)
        log).0
      ≡ throw e
    → (copilot_stream server request log).0 ≡ throw e
unfolding ask
copilot_stream_throws server request log body e passed read made =
    rw (copilot_stream-eq-ask server request log body passed read) (bind_result-throw _ _ _ e made)
