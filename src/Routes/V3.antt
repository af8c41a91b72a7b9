-- ===== src/Routes/V3.antt =====
-- app/api/v3/[...path]/route.ts
pub mod Laws
use Prim.Native.Char.{Char, code}
use enterprise_crm.Common.{
  ℕ, String, ◌<>◌, Bool, true, false, ◌&&◌, ◌||◌, List, [], ◌∷◌, map, eqb, leb, all, if◌then◌else◌,
}
use enterprise_crm.Common.Text.{in_range, encode_uri_component}
use enterprise_crm.Http.{
  Method, Server, Request, NextResponse, other_error, Result, ok, throw, M, ◌>>=◌, lift,
}
use enterprise_crm.Proxy.{proxy_api_request}
use enterprise_crm.Routes.Handlers.{Handler, RouteModule}

-- `[A-Za-z0-9._-]`
unfoldable pub is_part_char : ℕ → Bool
is_part_char n =
    in_range b'A' b'Z' n
    || in_range b'a' b'z' n
    || in_range b'0' b'9' n
    || eqb n b'.'
    || eqb n b'_'
    || eqb n b'-'

unfoldable pub are_part_chars : String → Bool
unfolding is_part_char
are_part_chars String.[] = true
are_part_chars (String.◌∷◌ c s) = is_part_char (code c) && are_part_chars s

-- `/^[A-Za-z0-9._-]+$/.test(part)`
unfoldable pub is_part : String → Bool
unfolding are_part_chars
is_part String.[] = false
is_part (String.◌∷◌ c s) = are_part_chars (String.◌∷◌ c s)

-- `parts.join("/")`
unfoldable pub join : List String → String
join [] = ""
join (s ∷ []) = s
join (s ∷ t ∷ ss) = s <> "/" <> join (t ∷ ss)

unfoldable pub backend_path : List String → Result String
unfolding is_part join
backend_path [] = throw other_error
backend_path (p ∷ ps) =
    if all is_part (p ∷ ps)
    then ok ("/v3/" <> join (map encode_uri_component (p ∷ ps)))
    else throw other_error

-- The path is computed outside the proxy, so its error is thrown by the handler.
unfoldable pub proxy : List String → Handler
unfolding backend_path
proxy parts server request =
    lift (backend_path parts) >>= λ path. proxy_api_request server path request

abbrev pub v3 : List String → RouteModule
v3 parts =
    (Method.get, proxy parts)
    ∷ (Method.post, proxy parts)
    ∷ (Method.put, proxy parts)
    ∷ (Method.patch, proxy parts)
    ∷ (Method.delete, proxy parts)
    ∷ []
