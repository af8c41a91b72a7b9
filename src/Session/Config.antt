-- ===== src/Session/Config.antt =====
-- shared.ts: the names of the cookies, and what is read from the environment.
pub mod Laws
use enterprise_crm.Common.{
  ℕ, zero, suc, ◌*◌, ◌≤◌, String, ◌<>◌, Bool, true, false, Option, none, some, ◌≡◌, refl, ◌==◌,
  ◌&&◌, ◌||◌, arith, if◌then◌else◌,
}
use Prim.Native.Char.{code}
use text.Mathlib.Text.{starts_with}
use enterprise_crm.Common.{eqb}
use enterprise_crm.Http.{
  JsNumber, not_a_number, infinite, finite, whole, math_round, math_clamp, is_integer, is_positive,
  Server, Url, Result, ok, throw, backend_request_error, configuration,
}

abbrev pub access_token_cookie : String
access_token_cookie = "enterprise_crm_access"

abbrev pub refresh_token_cookie : String
refresh_token_cookie = "enterprise_crm_refresh"

abbrev pub csrf_token_cookie : String
csrf_token_cookie = "enterprise_crm_csrf"

abbrev pub default_backend_timeout_ms : ℕ
default_backend_timeout_ms = 10_000

abbrev pub min_backend_timeout_ms : ℕ
min_backend_timeout_ms = 1_000

abbrev pub max_backend_timeout_ms : ℕ
max_backend_timeout_ms = 60_000

-- `.replace(/\/$/, "")`: one slash at the end is dropped.
unfoldable pub drop_last_slash : String → String
drop_last_slash String.[] = String.[]
drop_last_slash (String.◌∷◌ c String.[]) =
    if eqb (code c) b'/' then String.[] else String.◌∷◌ c String.[]
drop_last_slash (String.◌∷◌ c (String.◌∷◌ d s)) = String.◌∷◌ c (drop_last_slash (String.◌∷◌ d s))

abbrev not_configured : Result String
not_configured = throw (backend_request_error configuration)

unfoldable pub base_of_url : Option Url → Result String
base_of_url none = not_configured
base_of_url (some url) =
    if url.protocol == "http:" || url.protocol == "https:"
    then ok (drop_last_slash url.href)
    else not_configured

unfoldable pub get_backend_api_url : Server → Result String
unfolding base_of_url
get_backend_api_url server = elim server.backend_api_url [
  | none ↦ not_configured
  | some base ↦ if base == "" then not_configured else base_of_url (server.parse_url base)
]

unfoldable pub timeout_of : JsNumber → ℕ
unfolding math_round math_clamp
timeout_of (finite negative n d) =
    math_clamp min_backend_timeout_ms max_backend_timeout_ms (math_round negative n (suc d))
timeout_of _ = default_backend_timeout_ms

unfoldable pub get_backend_timeout_ms : Server → ℕ
unfolding timeout_of
get_backend_timeout_ms server = timeout_of server.backend_api_timeout_ms

abbrev pub with_slash : String → String
with_slash path = if starts_with path "/" then path else "/" <> path

abbrev pub join_url : Result String → String → Result String
join_url (throw e) path = throw e
join_url (ok base) path = ok (base <> with_slash path)

unfoldable pub backend_url : Server → String → Result String
unfolding get_backend_api_url
backend_url server path = join_url (get_backend_api_url server) path

unfoldable pub get_refresh_token_max_age : Server → JsNumber
unfolding is_integer is_positive
get_refresh_token_max_age server =
    let configured = server.auth_refresh_token_max_age_seconds in
    if is_integer configured && is_positive configured then configured else whole (60 * 60 * 24 * 7)
