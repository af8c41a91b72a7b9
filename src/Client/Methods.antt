-- ===== src/Client/Methods.antt =====
-- api-client.ts: `apiClient`, and a call of it as a value: the path, and the options of `request`.
use enterprise_crm.Common.{String, Option, none, some, []}
use enterprise_crm.Http.{Json, Method, json}
use enterprise_crm.Client.{ApiRequestOptions, ClientBody, payload, Browser, ApiResult, request}
use enterprise_crm.Client.Messages.{Value}

abbrev pub Sends : Type 0
Sends = String × ApiRequestOptions

abbrev pub no_options : ApiRequestOptions
no_options = record { method = none; headers = []; body = none; cache = none }

-- `{ cache: "no-store" }`
abbrev pub no_store : ApiRequestOptions
no_store = record { method = none; headers = []; body = none; cache = some "no-store" }

abbrev pub get_with : String → ApiRequestOptions → Sends
get_with path options = (path, options)

-- `post`, `patch` and `put`, without options of the caller.
abbrev pub send_body : Method → String → Option ClientBody → Sends
send_body method path body = (path, record no_options { method = some method; body = body })

-- The same with the text of a JSON value.
abbrev pub send_json : Method → String → Json → Sends
send_json method path j = send_body method path (some (payload (json j)))

abbrev pub delete_at : String → Sends
delete_at path = (path, record no_options { method = some Method.delete })

-- What becomes of a call.
abbrev pub perform : Browser → Sends → ApiResult Value
perform browser (path, options) = request browser path options
