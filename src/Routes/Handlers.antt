-- ===== src/Routes/Handlers.antt =====
-- A route module: what a `route.ts` exports, a handler for each method.
use enterprise_crm.Common.{String, List, [], ◌∷◌}
use enterprise_crm.Http.{Method, Request, Server, NextResponse, M}
use enterprise_crm.Proxy.{proxy_api_request}

abbrev pub Handler : Type 0
Handler = Server → Request → M NextResponse

abbrev pub RouteModule : Type 0
RouteModule = List (Method × Handler)

-- Handlers that each return `proxyApiRequest(path, request)`.
abbrev pub forwards : List Method → String → RouteModule
forwards [] path = []
forwards (m ∷ ms) path =
    (m, λ server request. proxy_api_request server path request) ∷ forwards ms path

abbrev pub get_post : List Method
get_post = Method.get ∷ Method.post ∷ []

abbrev pub get_patch_delete : List Method
get_patch_delete = Method.get ∷ Method.patch ∷ Method.delete ∷ []
