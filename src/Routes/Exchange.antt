-- ===== src/Routes/Exchange.antt =====
-- app/api/import-export/[resource]/route.ts: which tables are imported and exported.
use enterprise_crm.Common.{
  String, ◌<>◌, List, ◌≡◌, refl, ◌≢◌, ◌⊎◌, inl, inr, eq_iff, arith, Bool-cases,
}
use enterprise_crm.Http.{Server, Request, Call, ok, reply, detail}
use enterprise_crm.Proxy.{proxy_api_request}
use enterprise_crm.Routes.Files.{is_resource, import_export_handler}

abbrev pub Exchanges : String → Server → Request → List Call → Type 0
Exchanges resource server request log =
    (((resource ≡ "companies") ⊎ (resource ≡ "contacts"))
      × (import_export_handler resource server request log
          ≡ proxy_api_request server ("/import-export/" <> resource) request log))
    ⊎ ((resource ≢ "companies")
        × (resource ≢ "contacts")
        × (import_export_handler resource server request log
            ≡ (ok (reply (detail "Resource not found") 404), log)))

-- The route of imports and exports passes a request on for companies and for contacts, and answers
-- any other with a 404 that reaches no back end and changes no cookie.
pub import_export_handler-Exchanges :
    (resource : String) (server : Server) (request : Request) (log : List Call)
    → Exchanges resource server request log
unfolding import_export_handler is_resource
import_export_handler-Exchanges resource server request log =
    elim (Bool-cases (is_resource resource)) [
      | inl known ↦ inl (
        ground (arith, eq_iff resource "companies", eq_iff resource "contacts"),
        rw (known, import_export_handler) refl,
      )
      | inr unknown ↦ inr (
        (λ e. ground (arith, eq_iff resource "companies")),
        (λ e. ground (arith, eq_iff resource "contacts")),
        rw (unknown, import_export_handler) refl,
      )
    ]
