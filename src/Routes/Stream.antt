-- ===== src/Routes/Stream.antt =====
-- app/api/v3/ai/copilot/stream/route.ts
pub mod Laws
use enterprise_crm.Common.{
  String, Bool, true, false, Option, none, some, List, [], ◌∷◌, ◌&&◌, if◌then◌else◌,
}
use enterprise_crm.Http.{
  Method, text, RequestInit, Response, is_ok, Request, Server, Body, stream, NextResponse,
  other_error, Result, ok, throw, M, ◌>>=◌, pure, lift, or_throw, reply, detail,
}
use enterprise_crm.Http.Headers
use enterprise_crm.Session.Backend.{read_json_safely, response_from_backend_error}
use enterprise_crm.Session.Csrf.{require_csrf_protection}
use enterprise_crm.Session.Cookies.{clear_authentication_cookies}
use enterprise_crm.Session.Refresh.{
  AuthenticatedBackendResult, authenticated_backend_request, json_headers,
}
use enterprise_crm.Proxy.{set_refreshed, with_session_changes}

abbrev pub stream_init : String → RequestInit
stream_init body = record { method = Method.post; headers = json_headers; body = some (text body) }

abbrev pub event_stream : Response → NextResponse
event_stream r = record {
  status = r.status;
  headers =
      ("cache-control", "no-cache, no-transform")
      ∷ ("connection", "keep-alive")
      ∷ ("content-type", "text/event-stream; charset=utf-8")
      ∷ ("x-accel-buffering", "no")
      ∷ [];
  body = stream r;
  cookies = [];
}

-- From `if (!result.response)` on. The last line does not look at `shouldClearSession`.
unfoldable pub stream_to :
    Server → AuthenticatedBackendResult → Option Response → Result NextResponse
stream_to server result none =
    ok (clear_authentication_cookies (reply (detail "Authentication required") 401))
stream_to server result (some r) =
    if is_ok r && r.has_body
    then ok (set_refreshed server (event_stream r) result.refreshed_tokens result.csrf_token)
    else with_session_changes server result (response_from_backend_error r (read_json_safely r))

unfoldable pub ask : Server → Request → String → M NextResponse
unfolding stream_to
ask server request body =
    authenticated_backend_request server request.cookies "/v3/ai/copilot/stream" (stream_init body)
    >>= λ result. lift (stream_to server result result.response)

-- No `try` stands around these calls.
unfoldable pub copilot_stream : Server → Request → M NextResponse
unfolding ask
copilot_stream server request = elim (require_csrf_protection server request true) [
  | some failure ↦ pure failure
  | none ↦ lift (or_throw request.bytes other_error) >>= λ body. ask server request body
]
