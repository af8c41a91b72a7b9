-- ===== src/Routes/Files.antt =====
-- app/api: attachments, and the import and export of tables.
use enterprise_crm.Common.{String, ◌<>◌, [], ◌∷◌, Bool, ◌==◌, ◌||◌, if◌then◌else◌}
use enterprise_crm.Http.{Method, pure, reply, detail}
use enterprise_crm.Proxy.{proxy_api_request}
use enterprise_crm.Routes.Handlers.{Handler, RouteModule, forwards, get_post}

abbrev pub attachments : RouteModule
attachments = forwards get_post "/attachments"

-- The parameter is inserted as it is.
abbrev pub attachment_path : String → String
attachment_path attachment_id = "/attachments/" <> attachment_id

abbrev pub attachment : String → RouteModule
attachment attachment_id =
    forwards (Method.get ∷ Method.delete ∷ []) (attachment_path attachment_id)

abbrev pub download_path : String → String
download_path attachment_id = "/attachments/" <> attachment_id <> "/download"

abbrev pub attachment_download : String → RouteModule
attachment_download attachment_id = forwards (Method.get ∷ []) (download_path attachment_id)

-- `resources.has(resource) ? … : null`, and the handler that `GET` and `POST` share.
unfoldable pub is_resource : String → Bool
is_resource resource = resource == "companies" || resource == "contacts"

unfoldable pub import_export_handler : String → Handler
unfolding is_resource
import_export_handler resource server request =
    if is_resource resource
    then proxy_api_request server ("/import-export/" <> resource) request
    else pure (reply (detail "Resource not found") 404)

abbrev pub import_export : String → RouteModule
import_export resource =
    (Method.get, import_export_handler resource)
    ∷ (Method.post, import_export_handler resource)
    ∷ []
