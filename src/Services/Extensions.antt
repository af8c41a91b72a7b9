-- ===== src/Services/Extensions.antt =====
-- frontend/src/services/v3-service.ts: the assistant, dashboards, sequences and developer tools.
use enterprise_crm.Common.{String, ◌<>◌, Option, none, some}
use enterprise_crm.Http.{Json, str, obj, Fields, field, end, Method, Payload, json}
use enterprise_crm.Client.Methods.{Sends, no_options, get_with, send_json, delete_at}

abbrev empty_object : Json
empty_object = obj end

-- `ai`; `JSON.stringify` leaves out a member that is undefined.
abbrev pub ai_status : Sends
ai_status = get_with "/v3/ai/status" no_options

abbrev pub copilot : String → String → Sends
copilot prompt locale =
    send_json Method.post "/v3/ai/copilot"
      (obj (field "prompt" (str prompt) (field "locale" (str locale) end)))

abbrev model_field : Option String → Fields
model_field none = end
model_field (some model) = field "model" (str model) end

-- The arguments of `streamPost`.
abbrev pub stream_copilot : String → String → Option String → String × Payload
stream_copilot prompt locale model = (
  "/v3/ai/copilot/stream",
  json (obj (field "prompt" (str prompt) (field "locale" (str locale) (model_field model)))),
)

abbrev pub pull_model : String → String × Payload
pull_model model = ("/v3/ai/models/pull", json (obj (field "model" (str model) end)))

abbrev pub deal_insight : String → Sends
deal_insight deal_id = send_json Method.post ("/v3/ai/deals/" <> deal_id <> "/insight") empty_object

-- `dashboards`
abbrev pub list_widgets : Sends
list_widgets = get_with "/v3/dashboard-widgets" no_options

abbrev pub create_widget : Json → Sends
create_widget payload = send_json Method.post "/v3/dashboard-widgets" payload

abbrev pub update_widget : String → Json → Sends
update_widget id payload = send_json Method.patch ("/v3/dashboard-widgets/" <> id) payload

abbrev pub remove_widget : String → Sends
remove_widget id = delete_at ("/v3/dashboard-widgets/" <> id)

-- `sequences`
abbrev pub list_sequences : Sends
list_sequences = get_with "/v3/sequences" no_options

abbrev pub create_sequence : Json → Sends
create_sequence payload = send_json Method.post "/v3/sequences" payload

abbrev pub remove_sequence : String → Sends
remove_sequence id = delete_at ("/v3/sequences/" <> id)

abbrev pub enrollments : Sends
enrollments = get_with "/v3/sequences/enrollments" no_options

abbrev pub enroll : String → Json → Sends
enroll sequence_id payload =
    send_json Method.post ("/v3/sequences/" <> sequence_id <> "/enroll") payload

-- `developer`
abbrev pub list_api_keys : Sends
list_api_keys = get_with "/v3/developer/api-keys" no_options

abbrev pub create_api_key : String → Sends
create_api_key name =
    send_json Method.post "/v3/developer/api-keys" (obj (field "name" (str name) end))

abbrev pub revoke_api_key : String → Sends
revoke_api_key id = delete_at ("/v3/developer/api-keys/" <> id)

abbrev pub list_webhooks : Sends
list_webhooks = get_with "/v3/developer/webhooks" no_options

abbrev pub create_webhook : Json → Sends
create_webhook payload = send_json Method.post "/v3/developer/webhooks" payload

abbrev pub list_deliveries : Sends
list_deliveries = get_with "/v3/developer/webhook-deliveries" no_options

abbrev pub retry_delivery : String → Sends
retry_delivery id =
    send_json Method.post ("/v3/developer/webhook-deliveries/" <> id <> "/retry") empty_object
