-- ===== src/Auth/Outcomes.antt =====
-- auth/me and auth/mfa: what an authenticated call and the session's changes amount to.
use enterprise_crm.Common.{
  String, Bool, true, false, Option, none, some, List, [], ℕ, ◌≡◌, refl, sym, subst, inl, inr,
}
use enterprise_crm.Http.{
  Json, RequestInit, Call, Server, Thrown, Result, ok, throw, M, ◌>>=◌, lift, NextResponse, catch,
  json_response, is_null_body_status, OnOk, OnOk-if, OnOk-bind_eq, OnOk-of_eq, OnOk-use, Returns,
  Returns-catch, >>=-eq-throw,
}
use enterprise_crm.Session.Backend.{backend_error_response}
use enterprise_crm.Session.Refresh.{AuthenticatedBackendResult, authenticated_backend_request}
use enterprise_crm.Session.Refresh.Laws.{
  IsCoherent, NotSignedIn, authenticated_backend_request-IsCoherent,
}
use enterprise_crm.Proxy.Changes.{FollowsSession, changes_of, changes_of-FollowsSession}
use enterprise_crm.Auth.Mfa.{clear_if}

-- The cookies of an answer are the session's changes.
abbrev pub Applies : Server → AuthenticatedBackendResult → Result NextResponse → Type 0
Applies server result passed = OnOk (λ out. out.cookies ≡ changes_of server result) passed

pub json_response_cookies :
    (payload : Option Json) (status : ℕ)
    → OnOk (λ out. out.cookies ≡ []) (json_response payload status)
unfolding json_response
json_response_cookies none status = tt
json_response_cookies (some payload) status =
    OnOk-if (λ out. out.cookies ≡ []) (is_null_body_status status) _ _ tt refl

-- Without an answer the session is over, and the handler removes its cookies.
no_answer-Applies :
    (server : Server) (result : AuthenticatedBackendResult) (clear : Bool) (out : NextResponse)
    → result.should_clear_session ≡ clear
    → clear ≡ true
    → out.cookies ≡ []
    → (clear_if clear out).cookies ≡ changes_of server result
no_answer-Applies server result true out e c h = rw (e, h) refl
no_answer-Applies server result false out e c h = cc

pub unanswered-Applies :
    (server : Server) (jar : List (String × String)) (result : AuthenticatedBackendResult)
    (out : NextResponse)
    → IsCoherent jar result
    → result.response ≡ none
    → out.cookies ≡ []
    → (clear_if result.should_clear_session out).cookies ≡ changes_of server result
unanswered-Applies server jar result out coherent e h =
    no_answer-Applies server result result.should_clear_session out refl
      (coherent.clears.1 (subst NotSignedIn (sym e) tt)) h

module _ (server : Server) (jar : List (String × String)) (path : String) (init : RequestInit)
    (pass : AuthenticatedBackendResult → Result NextResponse) where
  -- The handler shows the answer that it makes of an authenticated call's result, and the session
  -- follows the back end's; or there is an error, and it shows the error's response.
  pub data Outcome (log : List Call) (out : NextResponse) : Type 0 where
    followed :
        (result : AuthenticatedBackendResult)
        → (authenticated_backend_request server jar path init log).0 ≡ ok result
        → pass result ≡ ok out
        → FollowsSession server jar result out
        → Outcome log out
    unreached :
        (e : Thrown)
        → (authenticated_backend_request server jar path init log).0 ≡ throw e
        → out ≡ backend_error_response e
        → Outcome log out
    not_shown :
        (e : Thrown) (result : AuthenticatedBackendResult)
        → (authenticated_backend_request server jar path init log).0 ≡ ok result
        → pass result ≡ throw e
        → out ≡ backend_error_response e
        → Outcome log out

  abbrev attempt : M NextResponse
  attempt = authenticated_backend_request server jar path init >>= λ result. lift (pass result)

  attempt-throw :
      (log : List Call) (e : Thrown)
      → (attempt log).0 ≡ throw e
      → Outcome log (backend_error_response e)
  attempt-throw log e h =
      elim (>>=-eq-throw (authenticated_backend_request server jar path init log).0 _ _ e h) [
        | inl lost ↦ unreached e lost refl
        | inr (result, made, broken) ↦ not_shown e result made broken refl
      ]

  pub catch-Outcome :
      ((result : AuthenticatedBackendResult)
        → IsCoherent jar result
        → Applies server result (pass result))
      → (log : List Call) → Returns (Outcome log) (catch attempt backend_error_response log).0
  catch-Outcome applies log =
      Returns-catch (Outcome log) attempt backend_error_response log
        (OnOk-bind_eq (Outcome log) (authenticated_backend_request server jar path init log).0 _ _
          λ result made.
            let coherent =
              authenticated_backend_request-IsCoherent server jar path init log result made in
            OnOk-of_eq (Outcome log) (pass result) λ out e. followed result made e (
              changes_of-FollowsSession server jar result out coherent
                (OnOk-use _ (pass result) out (applies result coherent) e)))
        (λ e h. attempt-throw log e h)
