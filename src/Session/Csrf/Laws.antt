-- ===== src/Session/Csrf/Laws.antt =====
-- shared.ts: which requests the guard against cross-site requests lets through.
use enterprise_crm.Common.{
  String, Bool, true, false, Option, none, some, [], ◌≡◌, refl, ◌≢◌, ◌↔◌, ◌⊎◌, inl, inr, eq_iff,
  arith, if◌then◌else◌,
}
use enterprise_crm.Http.{Request, Server, NextResponse, truthy}
use enterprise_crm.Http.Headers
use enterprise_crm.Session.Config.{csrf_token_cookie}
use enterprise_crm.Session.Csrf.{
  is_unsafe_method, get_request_origin, unless_same, cross_site, not_verified, check_token,
  check_origin, require_csrf_protection,
}

-- Both texts are there, not empty, and the same.
abbrev pub Same : Option String → Option String → Type 0
Same a b = (s : String) × (s ≢ "") × (a ≡ some s) × (b ≡ some s)

unless_same_sound :
    (a b : Option String) (failure : NextResponse)
    → unless_same (truthy a) (truthy b) failure ≡ none
    → Same a b
unless_same_sound none b failure h = cc
unless_same_sound (some s) none failure h = ground (arith, eq_iff s "")
unless_same_sound (some s) (some t) failure h = (
  s,
  ground (arith, eq_iff s "", eq_iff t s),
  ground (arith, eq_iff s "", eq_iff t s, eq_iff t ""),
  ground (arith, eq_iff s "", eq_iff t s, eq_iff t ""),
)

unless_same_complete :
    (a b : Option String) (failure : NextResponse)
    → Same a b
    → unless_same (truthy a) (truthy b) failure ≡ none
unless_same_complete a b failure (s, filled, p, q) = ground (arith, eq_iff s "", eq_iff s s)

-- The request names the server's own origin.
abbrev pub SameOrigin : Server → Request → Type 0
SameOrigin server request =
    Same (get_request_origin server request) (Headers.get "origin" request.headers)

-- The request repeats the CSRF cookie in a header, which another site cannot read.
abbrev pub SameToken : Request → Type 0
SameToken request =
    Same (Headers.get csrf_token_cookie request.cookies)
      (Headers.get "x-csrf-token" request.headers)

check_origin_iff :
    (server : Server) (request : Request)
    → (check_origin server request ≡ none) ↔ SameOrigin server request
unfolding check_origin
check_origin_iff server request = (
  unless_same_sound (get_request_origin server request) _ cross_site,
  unless_same_complete (get_request_origin server request) _ cross_site,
)

check_token_iff : (request : Request) → (check_token request ≡ none) ↔ SameToken request
unfolding check_token
check_token_iff request = (
  unless_same_sound (Headers.get csrf_token_cookie request.cookies) _ not_verified,
  unless_same_complete (Headers.get csrf_token_cookie request.cookies) _ not_verified,
)

-- The two checks in a row, whatever they are.
guard_iff :
    {O T : Type 0} (unsafe require_token : Bool) (origin token : Option NextResponse)
    → (origin ≡ none) ↔ O
    → (token ≡ none) ↔ T
    → ((if unsafe
          then elim origin [
            | some failure ↦ some failure
            | none ↦ if require_token then token else none
          ]
          else none)
        ≡ none)
      ↔ ((unsafe ≡ false) ⊎ (O × (require_token ≡ true → T)))
guard_iff false r o t p q = (λ _. inl refl, λ _. refl)
guard_iff true r (some f) t p q = (λ h. cc, elim [ inl e ↦ cc | inr h ↦ p.1 h.0 ])
guard_iff true true none t p q =
    (λ h. inr (p.0 refl, λ _. q.0 h), elim [ inl e ↦ cc | inr h ↦ q.1 (h.1 refl) ])
guard_iff true false none t p q = (λ h. inr (p.0 refl, λ e. cc), λ _. refl)

-- What the guard means to let through: a safe method, or the server's own origin and, where the
-- token is required, the token.
abbrev pub IsTrusted : Server → Request → Bool → Type 0
IsTrusted server request require_token =
    (is_unsafe_method request.method ≡ false)
    ⊎ (SameOrigin server request × (require_token ≡ true → SameToken request))

-- The guard lets a request through exactly if its method is safe, or it comes from the server's
-- own origin and, where the token is required, repeats the token of the CSRF cookie.
pub require_csrf_protection_iff :
    (server : Server) (request : Request) (require_token : Bool)
    → (require_csrf_protection server request require_token ≡ none)
      ↔ IsTrusted server request require_token
unfolding require_csrf_protection
require_csrf_protection_iff server request require_token =
    guard_iff (is_unsafe_method request.method) require_token (check_origin server request)
      (check_token request) (check_origin_iff server request) (check_token_iff request)

-- Every failure of the guard is a 403 without cookies.
pub require_csrf_protection-403 :
    (server : Server) (request : Request) (require_token : Bool) (failure : NextResponse)
    → require_csrf_protection server request require_token ≡ some failure
    → (failure.status ≡ 403) × (failure.cookies ≡ [])
unfolding require_csrf_protection check_origin check_token
require_csrf_protection-403 server request require_token failure h = ground arith
