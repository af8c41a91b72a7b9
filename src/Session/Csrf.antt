-- ===== src/Session/Csrf.antt =====
-- shared.ts: the guard against cross-site requests.
pub mod Laws
use enterprise_crm.Common.{
  String, Bool, true, false, not, Option, none, some, List, ◌==◌, ◌&&◌, if◌then◌else◌,
}
use mathlib.Core.Option
use enterprise_crm.Http.{Method, Request, Server, Url, NextResponse, reply, detail, truthy}
use enterprise_crm.Http.Headers
use enterprise_crm.Session.Config.{csrf_token_cookie}

unfoldable pub is_unsafe_method : Method → Bool
is_unsafe_method Method.get = false
is_unsafe_method Method.head = false
is_unsafe_method Method.options = false
is_unsafe_method _ = true

unfoldable pub get_request_origin : Server → Request → Option String
get_request_origin server request = elim (server.parse_url request.url) [
  | none ↦ none
  | some url ↦ some url.origin
]

abbrev pub cross_site : NextResponse
cross_site = reply (detail "Cross-site requests are not permitted.") 403

abbrev pub not_verified : NextResponse
not_verified = reply (detail "Your session could not be verified. Please sign in again.") 403

-- `!a || !b || b !== a`, and the failure that follows.
abbrev unless_same : Option String → Option String → NextResponse → Option NextResponse
unless_same none b failure = some failure
unless_same (some s) none failure = some failure
unless_same (some s) (some t) failure = if t == s then none else some failure

unfoldable pub check_token : Request → Option NextResponse
check_token request =
    unless_same (truthy (Headers.get csrf_token_cookie request.cookies))
      (truthy (Headers.get "x-csrf-token" request.headers)) not_verified

unfoldable pub check_origin : Server → Request → Option NextResponse
check_origin server request =
    unless_same (truthy (get_request_origin server request))
      (truthy (Headers.get "origin" request.headers)) cross_site

-- The argument `true` stands for the default options, `false` for `{ requireToken: false }`.
unfoldable pub require_csrf_protection : Server → Request → Bool → Option NextResponse
require_csrf_protection server request require_token =
    if is_unsafe_method request.method
    then elim (check_origin server request) [
      | some failure ↦ some failure
      | none ↦ if require_token then check_token request else none
    ]
    else none
