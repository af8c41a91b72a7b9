-- ===== src/Session/Backend/Laws.antt =====
-- shared.ts: what one call of the back end may do.
use enterprise_crm.Common.{String, ◌≡◌, ◌⊎◌, List, arith}
use enterprise_crm.Http.{
  RequestInit, Call, Server, timeout, unavailable, Thrown, backend_request_error, throw,
}
use enterprise_crm.Session.Backend.{backend_request}

-- A call of the back end throws a timeout or `unavailable`, and no other error.
pub backend_request_throws :
    (server : Server) (path : String) (init : RequestInit) (log : List Call) (e : Thrown)
    → (backend_request server path init log).0 ≡ throw e
    → (e ≡ backend_request_error timeout) ⊎ (e ≡ backend_request_error unavailable)
unfolding backend_request
backend_request_throws server path init log e h = ground arith
