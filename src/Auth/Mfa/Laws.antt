-- ===== src/Auth/Mfa/Laws.antt =====
-- auth/mfa/[action]/route.ts: every answer of the handler.
use enterprise_crm.Common.{
  eq_iff, String, ◌<>◌, true, false, Option, none, some, List, [], ◌==◌, ◌≡◌, refl, ◌⊎◌, inl, inr,
  arith, eqb, Option-cases, Bool-cases,
}
use enterprise_crm.Http.{
  Json, Method, RequestInit, Call, Response, is_ok, Server, Request, NextResponse, catch, OnOk,
  OnOk-if, Returns, Returns-map,
}
use enterprise_crm.Session.Backend.{read_json_safely, backend_error_response}
use enterprise_crm.Session.Csrf.{require_csrf_protection}
use enterprise_crm.Session.Csrf.Laws.{
  IsTrusted, require_csrf_protection_iff, require_csrf_protection-403,
}
use enterprise_crm.Session.Refresh.{AuthenticatedBackendResult}
use enterprise_crm.Session.Refresh.Laws.{IsCoherent}
use enterprise_crm.Proxy.Changes.{with_session_changes_cookies, response_from_backend_error_cookies}
use enterprise_crm.Auth.Mfa.{
  is_allowed_action, headers_for, payload_of, mfa_response, mfa_result, send_mfa, mfa_other,
  mfa_action, mfa,
}
use enterprise_crm.Auth.Outcomes.{
  Applies, Outcome, json_response_cookies, unanswered-Applies, catch-Outcome,
}

mfa_response_cookies : (r : Response) → OnOk (λ out. out.cookies ≡ []) (mfa_response r)
unfolding mfa_response
mfa_response_cookies r =
    OnOk-if (λ out. out.cookies ≡ []) (is_ok r) _ _
      (OnOk-if (λ out. out.cookies ≡ []) (eqb r.status 204) _ _ refl
        (json_response_cookies (read_json_safely r) r.status))
      (response_from_backend_error_cookies r (read_json_safely r))

mfa_result-Applies :
    (server : Server) (jar : List (String × String)) (result : AuthenticatedBackendResult)
    (response : Option Response)
    → IsCoherent jar result
    → result.response ≡ response
    → Applies server result (mfa_result server result response)
unfolding mfa_result
mfa_result-Applies server jar result none coherent e =
    unanswered-Applies server jar result _ coherent e refl
mfa_result-Applies server jar result (some r) coherent e =
    with_session_changes_cookies server result (mfa_response r) (mfa_response_cookies r)

-- The call that an action makes, and the answer made of its result.
abbrev mfa_init : Option Json → RequestInit
mfa_init payload = record {
  method = Method.post;
  headers = headers_for payload;
  body = payload_of payload;
}

abbrev Settles : Server → Request → String → Option Json → List Call → NextResponse → Type 0
Settles server request action payload log out =
    Outcome server request.cookies ("/auth/mfa/" <> action) (mfa_init payload)
      (λ result. mfa_result server result result.response) log out

abbrev IsKnown : String → Type 0
IsKnown action = (action ≡ "setup") ⊎ (action ≡ "confirm") ⊎ (action ≡ "disable")

module _ (server : Server) (request : Request) (action : String) where
  pub data MfaAnswer (log : List Call) (out : NextResponse) : Type 0 where
    rejected :
        ¬ IsTrusted server request true → out.status ≡ 403 → out.cookies ≡ [] → MfaAnswer log out
    unsupported :
        IsTrusted server request true
        → ¬ IsKnown action
        → out.status ≡ 404
        → out.cookies ≡ []
        → MfaAnswer log out
    invalid :
        IsTrusted server request true
        → (action ≡ "confirm") ⊎ (action ≡ "disable")
        → request.parsed ≡ none
        → out.status ≡ 400
        → out.cookies ≡ []
        → MfaAnswer log out
    set_up :
        IsTrusted server request true
        → action ≡ "setup"
        → Settles server request action none log out
        → MfaAnswer log out
    sent :
        IsTrusted server request true
        → (payload : Json) → (action ≡ "confirm") ⊎ (action ≡ "disable")
        → request.parsed ≡ some payload
        → Settles server request action (some payload) log out
        → MfaAnswer log out

is_allowed_action-IsKnown : (action : String) → is_allowed_action action ≡ false → ¬ IsKnown action
unfolding is_allowed_action
is_allowed_action-IsKnown action refused known =
    ground (arith, eq_iff action "setup", eq_iff action "confirm", eq_iff action "disable")

-- An action that is allowed and is no setup.
other_action :
    (action : String)
    → is_allowed_action action ≡ true
    → (action == "setup") ≡ false
    → (action ≡ "confirm") ⊎ (action ≡ "disable")
unfolding is_allowed_action
other_action action allowed other = ground (arith, eq_iff action "confirm", eq_iff action "disable")

send_mfa-Settles :
    (server : Server) (request : Request) (action : String) (payload : Option Json)
    (log : List Call)
    → Returns
        (Settles server request action payload log)
        (catch (send_mfa server request action payload) backend_error_response log).0
unfolding send_mfa
send_mfa-Settles server request action payload log =
    catch-Outcome server request.cookies ("/auth/mfa/" <> action) (mfa_init payload)
      (λ result. mfa_result server result result.response)
      (λ result coherent.
        mfa_result-Applies server request.cookies result result.response coherent refl)
      log

other_action-MfaAnswer :
    (server : Server) (request : Request) (action : String) (log : List Call) (parsed : Option Json)
    → IsTrusted server request true
    → is_allowed_action action ≡ true
    → (action == "setup") ≡ false
    → request.parsed ≡ parsed
    → Returns (MfaAnswer server request action log) (mfa_other server request action parsed log).0
unfolding mfa_other
other_action-MfaAnswer server request action log none trusted allowed other e =
    invalid trusted (other_action action allowed other) e refl refl
other_action-MfaAnswer server request action log (some payload) trusted allowed other e =
    Returns-map _ (MfaAnswer server request action log) _
      (λ out. sent trusted payload (other_action action allowed other) e)
      (send_mfa-Settles server request action (some payload) log)

allowed-MfaAnswer :
    (server : Server) (request : Request) (action : String) (log : List Call)
    → IsTrusted server request true
    → is_allowed_action action ≡ true
    → Returns (MfaAnswer server request action log) (mfa_action server request action log).0
unfolding mfa_action
allowed-MfaAnswer server request action log trusted allowed =
    elim (Bool-cases (action == "setup")) [
      | inl setup ↦
          rw (setup, mfa_action)
            (Returns-map _ (MfaAnswer server request action log) _
              (λ out. set_up trusted ((eq_iff action "setup").0 setup))
              (send_mfa-Settles server request action none log))
      | inr other ↦
          rw (other, mfa_action)
            (other_action-MfaAnswer server request action log request.parsed trusted allowed other
              refl)
    ]

-- Every request to an MFA route is answered. One that is not trusted gets a 403, whatever its action
-- and its body. A trusted one gets a 404 if its action is not setup, confirm or disable; a 400 if it is
-- to confirm or to disable and its body is not JSON; and else the answer to the authenticated call of
-- its action, which the session follows, or the response of that call's error.
pub mfa-MfaAnswer :
    (server : Server) (request : Request) (action : String) (log : List Call)
    → Returns (MfaAnswer server request action log) (mfa server request action log).0
unfolding mfa
mfa-MfaAnswer server request action log =
    elim (Option-cases (require_csrf_protection server request true)) [
      | inr (failure, blocked) ↦
          let (status, none_set) =
            require_csrf_protection-403 server request true failure blocked in
          rw (blocked, mfa)
            (rejected
              (λ trusted. cc (blocked, (require_csrf_protection_iff server request true).1 trusted))
              status none_set)
      | inl passed ↦ elim (Bool-cases (is_allowed_action action)) [
        | inr refused ↦
            rw (passed, mfa)
              (rw (refused, mfa)
                (unsupported ((require_csrf_protection_iff server request true).0 passed)
                  (is_allowed_action-IsKnown action refused) refl refl))
        | inl allowed ↦
            rw (passed, mfa)
              (rw (allowed, mfa)
                (allowed-MfaAnswer server request action log
                  ((require_csrf_protection_iff server request true).0 passed) allowed))
      ]
    ]
