-- ===== src/Client/Tokens.antt =====
-- api-client.ts and the guard of auth/shared.ts: the CSRF token, from the browser to the BFF.
use enterprise_crm.Common.{
  String, Bool, true, false, none, some, ◌==◌, ◌≡◌, refl, sym, subst, ◌∙◌, ◌≢◌, inl, inr, arith,
  eq_iff, if◌then◌else◌, Bool-cases,
}
use enterprise_crm.Http.{Method, Request, Server}
use enterprise_crm.Http.Headers
use enterprise_crm.Http.Headers.{get-set}
use enterprise_crm.Session.Config.{csrf_token_cookie}
use enterprise_crm.Session.Csrf.{is_unsafe_method, require_csrf_protection}
use enterprise_crm.Session.Csrf.Laws.{SameOrigin, require_csrf_protection_iff}
use enterprise_crm.Client.{
  Browser, ClientCall, ApiRequestOptions, read_cookie, is_mutating, set_csrf_token,
  set_content_type, method_of, request_call, request,
}

csrf_token_sent :
    (browser : Browser) (method : Method) (headers : Headers.Headers) (token : String)
    → is_mutating method ≡ true
    → Headers.get "x-csrf-token" headers ≡ none
    → read_cookie browser csrf_token_cookie ≡ some token
    → token ≢ ""
    → Headers.get "x-csrf-token" (set_csrf_token browser method headers) ≡ some token
csrf_token_sent browser method headers token mutating unset found filled =
    let present : (token == "") ≡ false = ground (arith, eq_iff token "") in
    rw (mutating, unset, found, present) (get-set "x-csrf-token" "x-csrf-token" token headers)

set-other :
    (b : Bool) (k v : String) (headers : Headers.Headers)
    → (k == "x-csrf-token") ≡ false
    → Headers.get "x-csrf-token" headers ≡ none
    → Headers.get "x-csrf-token" (if b then Headers.set k v headers else headers) ≡ none
set-other false k v headers other h = h
set-other true k v headers other h = rw get-set (rw other h)

-- The same before the content type is set, which is another header.
plain_headers :
    (options : ApiRequestOptions)
    → Headers.get "x-csrf-token" options.headers ≡ none
    → Headers.get "x-csrf-token"
        (set_content_type options.body (Headers.set "accept" "application/json" options.headers))
      ≡ none
plain_headers options unset =
    set-other _ "content-type" "application/json"
      (Headers.set "accept" "application/json" options.headers) refl
      (set-other true "accept" "application/json" options.headers refl unset)

not_unsafe : (m : Method) → is_mutating m ≡ false → is_unsafe_method m ≡ false
unfolding is_mutating is_unsafe_method
not_unsafe Method.get h = refl
not_unsafe Method.head h = refl
not_unsafe Method.options h = refl
not_unsafe Method.post h = cc
not_unsafe Method.put h = cc
not_unsafe Method.patch h = cc
not_unsafe Method.delete h = cc

safe_of : (m n : Method) → n ≡ m → is_mutating m ≡ false → is_unsafe_method n ≡ false
safe_of m n e h = subst (λ x. is_unsafe_method x ≡ false) (sym e) (not_unsafe m h)

-- A request at the BFF that brings what the client's call says: its method and its token; the
-- browser adds the origin of the page and the cookies.
pub record Carries (server : Server) (request : Request) (call : ClientCall) (token : String)
    : Type 0 where
  pub method : request.method ≡ call.method
  pub header : Headers.get "x-csrf-token" request.headers ≡ Headers.get "x-csrf-token" call.headers
  pub cookie : Headers.get csrf_token_cookie request.cookies ≡ some token
  pub origin : SameOrigin server request

-- A request of the client passes the BFF's guard, whatever its method, if the browser finds in
-- `document.cookie` the token that it sends along as a cookie, this is not empty, the request comes
-- from the BFF's own origin, and the caller sets no token of its own.
pub request_call-IsTrusted :
    (browser : Browser) (server : Server) (path : String) (options : ApiRequestOptions)
    (request : Request) (token : String)
    → read_cookie browser csrf_token_cookie ≡ some token
    → token ≢ ""
    → Headers.get "x-csrf-token" options.headers ≡ none
    → Carries server request (request_call browser path options) token
    → require_csrf_protection server request true ≡ none
unfolding request_call
request_call-IsTrusted browser server path options request token found filled unset carries =
    (require_csrf_protection_iff server request true).1
      (elim (Bool-cases (is_mutating (method_of options))) [
        | inr safe ↦ inl (safe_of (method_of options) request.method carries.method safe)
        | inl mutating ↦ inr (
          carries.origin,
          λ _. (
            token,
            filled,
            carries.cookie,
            carries.header
                ∙ csrf_token_sent browser (method_of options) _ token mutating
                    (plain_headers options unset) found filled,
          ),
        )
      ])
