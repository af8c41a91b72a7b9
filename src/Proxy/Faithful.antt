-- ===== src/Proxy/Faithful.antt =====
-- proxy.ts: how the answer of the back end, and what became of the session, are passed on.
use enterprise_crm.Common.{
  ◌≤◌, ◌<◌, String, true, false, Option, none, some, List, [], ◌++◌, ap, ◌≡◌, refl, ◌⊎◌, inl, inr,
  arith, leb, Bool-cases,
}
use enterprise_crm.Http.{
  Json, CookieChange, Response, Server, Result, ok, throw, NextResponse, empty, bytes, OnOk,
  OnOk-use, is_null_body_status, truthy,
}
use enterprise_crm.Http.Headers
use enterprise_crm.Http.Headers.{get-delete}
use enterprise_crm.Session.Backend.{
  service_unavailable, response_from_backend_error, read_json_safely,
}
use enterprise_crm.Session.Refresh.{AuthenticatedBackendResult}
use enterprise_crm.Session.Refresh.Laws.{IsCoherent}
use enterprise_crm.Proxy.{
  response_headers, apply_session_changes, with_session_changes, pass_body, proxied, respond_to,
  respond,
}
use enterprise_crm.Proxy.Changes.{
  FollowsSession, changes_of, add_changes, changes_of-FollowsSession,
}
use enterprise_crm.Proxy.Filter.{
  IsFiltered, get-response_headers_filtered, get-response_headers_cache, get-response_headers_type,
  get-response_headers_disposition, get-response_headers_length, get-response_headers_sniff,
}

-- The bytes of the back end with the length that it gives, or no body and no length where the status
-- allows none.
abbrev pub CarriesBody : Response → NextResponse → Type 0
CarriesBody r out =
    ((is_null_body_status r.status ≡ true)
      × (out.body ≡ empty)
      × (Headers.get "content-length" out.headers ≡ none))
    ⊎ ((b : String) × (is_null_body_status r.status ≡ false)
        × (r.bytes ≡ some b)
        × (out.body ≡ bytes b)
        × (Headers.get "content-length" out.headers
            ≡ truthy (Headers.get "content-length" r.headers)))

pub record IsFaithful (r : Response) (out : NextResponse) : Type 0 where
  pub same_status : out.status ≡ r.status
  pub content : CarriesBody r out
  pub same_type :
      Headers.get "content-type" out.headers ≡ truthy (Headers.get "content-type" r.headers)
  pub same_disposition :
      Headers.get "content-disposition" out.headers
      ≡ truthy (Headers.get "content-disposition" r.headers)
  pub filtered : (name : String) → IsFiltered name → Headers.get name out.headers ≡ none
  pub not_stored : Headers.get "cache-control" out.headers ≡ some "no-store"
  pub not_sniffed : Headers.get "x-content-type-options" out.headers ≡ some "nosniff"

-- What the client sees of an answer: a failure of the back end is masked.
abbrev pub Shows : Option Response → NextResponse → Type 0
Shows none out = out.status ≡ 401
Shows (some r) out =
    ((500 ≤ r.status) × (out.status ≡ 502) × (out.body ≡ service_unavailable.body))
    ⊎ ((r.status < 500) × IsFaithful r out)

-- An answer that shows the back end's, before the session's changes are applied.
abbrev Plain : Option Response → NextResponse → Type 0
Plain response out = Shows response out × (out.cookies ≡ [])

pass_body-Plain :
    (r : Response) (read : Option String)
    → r.status < 500
    → r.bytes ≡ read
    → is_null_body_status r.status ≡ false
    → OnOk (Plain (some r)) (pass_body r read)
unfolding pass_body
pass_body-Plain r none below e full = tt
pass_body-Plain r (some b) below e full = (
  inr (
    below,
    record {
      same_status = refl;
      content = inr (b, full, e, refl, get-response_headers_length r.headers);
      same_type = get-response_headers_type r.headers;
      same_disposition = get-response_headers_disposition r.headers;
      filtered = λ name h. get-response_headers_filtered name r.headers h;
      not_stored = get-response_headers_cache r.headers;
      not_sniffed = get-response_headers_sniff r.headers;
    },
  ),
  refl,
)

bare-IsFaithful :
    (r : Response)
    → is_null_body_status r.status ≡ true
    → IsFaithful r (record {
      status = r.status;
      headers = Headers.delete "content-length" (response_headers r.headers);
      body = empty;
      cookies = [];
    })
bare-IsFaithful r bare = record {
  same_status = refl;
  content = inl (bare, refl, rw get-delete refl);
  same_type = rw get-delete (get-response_headers_type r.headers);
  same_disposition = rw get-delete (get-response_headers_disposition r.headers);
  filtered = λ name h. ground (
    arith,
    get-delete name "content-length" (response_headers r.headers),
    get-response_headers_filtered name r.headers h,
  );
  not_stored = rw get-delete (get-response_headers_cache r.headers);
  not_sniffed = rw get-delete (get-response_headers_sniff r.headers);
}

proxied-Plain : (r : Response) → r.status < 500 → OnOk (Plain (some r)) (proxied r)
unfolding proxied
proxied-Plain r below = elim (Bool-cases (is_null_body_status r.status)) [
  | inl bare ↦ rw (bare, proxied) (inr (below, bare-IsFaithful r bare), refl)
  | inr full ↦ rw (full, proxied) (pass_body-Plain r r.bytes below refl full)
]

-- The same, once they are applied.
abbrev pub Changed : Server → AuthenticatedBackendResult → Option Response → NextResponse → Type 0
Changed server result response out = Shows response out × (out.cookies ≡ changes_of server result)

Shows-cookies :
    (response : Option Response) (out : NextResponse) (cs : List CookieChange)
    → Shows response out
    → Shows response (record out { cookies = cs })
Shows-cookies none out cs h = h
Shows-cookies (some r) out cs (inl masked) = inl masked
Shows-cookies (some r) out cs (inr (below, f)) = inr (
  below,
  record {
    same_status = f.same_status;
    content = f.content;
    same_type = f.same_type;
    same_disposition = f.same_disposition;
    filtered = f.filtered;
    not_stored = f.not_stored;
    not_sniffed = f.not_sniffed;
  },
)

apply_session_changes-Changed :
    (server : Server) (result : AuthenticatedBackendResult) (response : Option Response)
    (out : NextResponse)
    → Plain response out
    → Changed server result response (apply_session_changes server out result)
unfolding apply_session_changes
apply_session_changes-Changed server result response out (shows, none_yet) =
    rw add_changes
      (Shows-cookies response out _ shows, ap (λ cs. cs ++ changes_of server result) none_yet)

with_session_changes-Changed :
    (server : Server) (result : AuthenticatedBackendResult) (response : Option Response)
    (base : Result NextResponse)
    → OnOk (Plain response) base
    → OnOk (Changed server result response) (with_session_changes server result base)
with_session_changes-Changed server result response (throw e) h = tt
with_session_changes-Changed server result response (ok out) h =
    apply_session_changes-Changed server result response out h

masked-Plain :
    (r : Response) (payload : Option Json)
    → 500 ≤ r.status
    → OnOk (Plain (some r)) (response_from_backend_error r payload)
unfolding response_from_backend_error
masked-Plain r payload h =
    let above : leb 500 r.status ≡ true = ground arith in
    rw (above, response_from_backend_error) (inl (h, refl, refl), refl)

respond_to-Changed :
    (server : Server) (result : AuthenticatedBackendResult) (response : Option Response)
    → OnOk (Changed server result response) (respond_to server result response)
unfolding respond_to
respond_to-Changed server result none =
    apply_session_changes-Changed server result none _ (refl, refl)
respond_to-Changed server result (some r) = elim (Bool-cases (leb 500 r.status)) [
  | inl failed ↦
      rw (failed, respond_to)
        (with_session_changes-Changed server result (some r) _
          (masked-Plain r (read_json_safely r) (ground arith)))
  | inr served ↦
      rw (served, respond_to)
        (with_session_changes-Changed server result (some r) _ (proxied-Plain r (ground arith)))
]

-- Where the answer of a coherent result is passed on and is below 500, its status and its content are
-- shown, with its content type, its disposition and, where there is a body, its length, each if the
-- back end sends it and it is not empty; no other header of the back end is, and the answer is marked
-- as not to be stored nor sniffed. A failure of the back end is masked by a 502 with a fixed text, no
-- answer by a 401, and the client's session follows the back end's.
pub respond-FollowsSession :
    (server : Server) (jar : List (String × String)) (result : AuthenticatedBackendResult)
    (out : NextResponse)
    → IsCoherent jar result
    → respond server result ≡ ok out
    → Shows result.response out × FollowsSession server jar result out
unfolding respond
respond-FollowsSession server jar result out coherent e =
    let (shows, cookies) =
      OnOk-use (Changed server result result.response) _ out
        (respond_to-Changed server result result.response) e in
    (shows, changes_of-FollowsSession server jar result out coherent cookies)
