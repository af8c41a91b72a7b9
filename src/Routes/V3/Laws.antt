-- ===== src/Routes/V3/Laws.antt =====
-- app/api/v3/[...path]/route.ts: which paths are forwarded, and where to.
use Prim.Native.Char.{code}
use enterprise_crm.Common.{
  Bool-cases, ap, ℕ, String, ◌<>◌, Bool, true, false, ◌≡◌, refl, ◌≢◌, ◌↔◌, List, [], ◌∷◌, map, all,
  arith, inl, inr, ◌⊎◌, if◌then◌else◌,
}
use enterprise_crm.Common.Text.{is_unreserved, encode_uri_component}
use enterprise_crm.Http.{bind_result, other_error, ok, throw, Server, Request, Call}
use enterprise_crm.Proxy.{proxy_api_request}
use enterprise_crm.Routes.V3.{is_part_char, are_part_chars, is_part, join, backend_path, proxy}

is_part_char-unreserved : (n : ℕ) → is_part_char n ≡ true → is_unreserved n ≡ true
unfolding is_part_char is_unreserved
is_part_char-unreserved n h = ground arith

encode_part : (s : String) → are_part_chars s ≡ true → encode_uri_component s ≡ s
unfolding encode_uri_component are_part_chars
encode_part String.[] h = refl
encode_part (String.◌∷◌ c s) h = ground (arith, is_part_char-unreserved (code c), encode_part s)

-- What a part of the path has to be.
abbrev pub IsPart : String → Type 0
IsPart s = is_part s ≡ true

encode-IsPart : (s : String) → IsPart s → encode_uri_component s ≡ s
unfolding is_part encode_uri_component
encode-IsPart String.[] h = refl
encode-IsPart (String.◌∷◌ c s) h = encode_part (String.◌∷◌ c s) h

map_encode : (ps : List String) → all is_part ps ≡ true → map encode_uri_component ps ≡ ps
map_encode [] h = refl
map_encode (p ∷ ps) h = ground (arith, encode-IsPart p, map_encode ps)

if-eq-ok_iff :
    (b : Bool) (v p : String)
    → ((if b then ok v else throw other_error) ≡ ok p) ↔ ((b ≡ true) × (p ≡ v))
if-eq-ok_iff true v p = ground arith
if-eq-ok_iff false v p = ground arith

forwarded_as_is :
    (parts : List String) (path : String)
    → all is_part parts ≡ true
    → (path ≡ "/v3/" <> join (map encode_uri_component parts)) ↔ (path ≡ "/v3/" <> join parts)
forwarded_as_is parts path good = rw (map_encode parts good) ((λ e. e), (λ e. e))

-- A path is forwarded exactly if it has parts and each of them is a non-empty text of letters,
-- digits, dots, dashes and underscores; and it is forwarded as it is, below `/v3/`: the encoding
-- changes nothing.
pub backend_path_iff :
    (parts : List String) (path : String)
    → (backend_path parts ≡ ok path)
      ↔ ((parts ≢ []) × (all is_part parts ≡ true) × (path ≡ "/v3/" <> join parts))
unfolding backend_path
backend_path_iff [] path = (λ h. cc, λ h. absurd (h.0 refl))
backend_path_iff (p ∷ ps) path =
    let (accepted, produce) = if-eq-ok_iff (all is_part (p ∷ ps)) _ path in
    (
      λ h. let (good, e) = accepted h in (λ e. cc, good, (forwarded_as_is (p ∷ ps) path good).0 e),
      λ h. produce (h.1, (forwarded_as_is (p ∷ ps) path h.1).1 h.2),
    )

proxy_accepted :
    (parts : List String) (server : Server) (request : Request) (log : List Call) (path : String)
    → backend_path parts ≡ ok path
    → proxy parts server request log ≡ proxy_api_request server path request log
unfolding proxy
proxy_accepted parts server request log path e =
    ap (λ r. bind_result r log (λ p. proxy_api_request server p request)) e

-- What the handler does with the parts of a path.
abbrev pub Forwards : List String → Server → Request → List Call → Type 0
Forwards parts server request log =
    ((parts ≢ [])
      × (all is_part parts ≡ true)
      × (proxy parts server request log
          ≡ proxy_api_request server ("/v3/" <> join parts) request log))
    ⊎ (((parts ≡ []) ⊎ (all is_part parts ≡ false))
        × (proxy parts server request log ≡ (throw other_error, log)))

rejected-Forwards :
    (parts : List String) (server : Server) (request : Request) (log : List Call)
    → (parts ≡ []) ⊎ (all is_part parts ≡ false)
    → proxy parts server request log ≡ (throw other_error, log)
unfolding proxy backend_path
rejected-Forwards [] server request log h = refl
rejected-Forwards (p ∷ ps) server request log (inl h) = cc
rejected-Forwards (p ∷ ps) server request log (inr bad) = rw (bad, if◌then◌else◌)

-- The generic route forwards a request through the proxy, to the very path of the client below
-- `/v3/`, if this has parts and all are accepted; else it throws before any call of the back end.
pub proxy-Forwards :
    (parts : List String) (server : Server) (request : Request) (log : List Call)
    → Forwards parts server request log
proxy-Forwards [] server request log =
    inr (inl refl, rejected-Forwards [] server request log (inl refl))
proxy-Forwards (p ∷ ps) server request log = elim (Bool-cases (all is_part (p ∷ ps))) [
  | inl good ↦ inl (
    λ h. cc,
    good,
    proxy_accepted (p ∷ ps) server request log ("/v3/" <> join (p ∷ ps))
        ((backend_path_iff (p ∷ ps) ("/v3/" <> join (p ∷ ps))).1 (λ h. cc, good, refl)),
  )
  | inr bad ↦ inr (inr bad, rejected-Forwards (p ∷ ps) server request log (inr bad))
]
