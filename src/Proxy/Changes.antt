-- ===== src/Proxy/Changes.antt =====
-- proxy.ts: what becomes of the client's session.
use enterprise_crm.Common.{
  String, Bool, true, false, Option, none, some, List, [], ◌++◌, if◌then◌else◌, ap, sym, ◌≡◌, refl,
  ◌↔◌, ◌∙◌, leb,
}
use enterprise_crm.Http.{
  OnOk-if, Json, CookieChange, Response, Server, Result, ok, throw, NextResponse, OnOk,
  is_null_body_status,
}
use enterprise_crm.Http.Headers
use enterprise_crm.Http.Headers.{get-delete}
use enterprise_crm.Session.Config.{csrf_token_cookie}
use enterprise_crm.Session.Backend.{BackendTokenResponse, response_from_backend_error}
use mathlib.Core.List.{append-nil}
use enterprise_crm.Session.Cookies.{
  clear_authentication_cookies, session_cookies, no_session_cookies,
}
use enterprise_crm.Session.Refresh.{AuthenticatedBackendResult}
use enterprise_crm.Session.Refresh.Laws.{NotSignedIn, IsCoherent}
use enterprise_crm.Proxy.{apply_session_changes, set_refreshed, with_session_changes}

-- The client's session follows the back end's: it ends with a 401 or where there is nothing to
-- show, it takes over refreshed tokens and keeps its CSRF token, and else it stays as it was.
pub record FollowsSession (server : Server) (jar : List (String × String))
    (result : AuthenticatedBackendResult) (out : NextResponse) : Type 0 where
  pub ended : NotSignedIn result.response → out.cookies ≡ no_session_cookies
  pub renewed :
      (tokens : BackendTokenResponse)
      → ¬ NotSignedIn result.response
      → result.refreshed_tokens ≡ some tokens
      → out.cookies ≡ session_cookies server tokens (Headers.get csrf_token_cookie jar)
  pub kept : ¬ NotSignedIn result.response → result.refreshed_tokens ≡ none → out.cookies ≡ []

-- The cookies by which a session ends, is renewed or stays.
abbrev pub session_changes :
    Server → Bool → Option BackendTokenResponse → Option String → List CookieChange
session_changes server true tokens csrf_token = no_session_cookies
session_changes server false none csrf_token = []
session_changes server false (some tokens) csrf_token = session_cookies server tokens csrf_token

abbrev pub changes_of : Server → AuthenticatedBackendResult → List CookieChange
changes_of server result =
    session_changes server result.should_clear_session result.refreshed_tokens result.csrf_token

pub add_changes :
    (server : Server) (out : NextResponse) (clear : Bool) (tokens : Option BackendTokenResponse)
    (csrf_token : Option String)
    → (if clear
        then clear_authentication_cookies out
        else set_refreshed server out tokens csrf_token)
      ≡ record out { cookies = out.cookies ++ session_changes server clear tokens csrf_token }
add_changes server out true tokens csrf_token = refl
add_changes server out false none csrf_token =
    ap (λ cs. record out { cookies = cs }) (sym (append-nil out.cookies))
add_changes server out false (some tokens) csrf_token = refl

signed_in_false :
    (clear : Bool) (response : Option Response)
    → (clear ≡ true) ↔ NotSignedIn response
    → ¬ NotSignedIn response
    → clear ≡ false
signed_in_false true response h signed_in = absurd (signed_in (h.0 refl))
signed_in_false false response h signed_in = refl

changes_at :
    (server : Server) (result : AuthenticatedBackendResult) (clear : Bool)
    (tokens : Option BackendTokenResponse) (csrf_token : Option String)
    → result.should_clear_session ≡ clear
    → result.refreshed_tokens ≡ tokens
    → result.csrf_token ≡ csrf_token
    → changes_of server result ≡ session_changes server clear tokens csrf_token
changes_at server result clear tokens csrf_token p q r =
    λ i. session_changes server (p i) (q i) (r i)

pub changes_of-FollowsSession :
    (server : Server) (jar : List (String × String)) (result : AuthenticatedBackendResult)
    (out : NextResponse)
    → IsCoherent jar result
    → out.cookies ≡ changes_of server result
    → FollowsSession server jar result out
changes_of-FollowsSession server jar result out coherent e = record {
  ended = λ h. e ∙ changes_at server result true _ _ (coherent.clears.1 h) refl refl;
  renewed = λ tokens h t.
      e
      ∙ changes_at server result false _ _ (signed_in_false _ _ coherent.clears h) t
          coherent.csrf_kept;
  kept =
      λ h t. e ∙ changes_at server result false _ _ (signed_in_false _ _ coherent.clears h) t refl;
}

-- The cookies alone, for the handlers that pass on other content.
pub with_session_changes_cookies :
    (server : Server) (result : AuthenticatedBackendResult) (base : Result NextResponse)
    → OnOk (λ out. out.cookies ≡ []) base
    → OnOk (λ out. out.cookies ≡ changes_of server result) (with_session_changes server result base)
unfolding apply_session_changes
with_session_changes_cookies server result (throw e) h = tt
with_session_changes_cookies server result (ok out) h =
    rw add_changes (ap (λ cs. cs ++ changes_of server result) h)

pub response_from_backend_error_cookies :
    (r : Response) (payload : Option Json)
    → OnOk (λ out. out.cookies ≡ []) (response_from_backend_error r payload)
unfolding response_from_backend_error
response_from_backend_error_cookies r payload =
    OnOk-if (λ out. out.cookies ≡ []) (leb 500 r.status) _ _ refl
      (OnOk-if (λ out. out.cookies ≡ []) (is_null_body_status r.status) _ _ tt refl)
