-- ===== src/Services/V3.antt =====
-- frontend/src/services/v3-service.ts: the calls of the later parts of the CRM.
use enterprise_crm.Common.{String, ◌<>◌, Bool, Option, none, some, ◌==◌, if◌then◌else◌}
use enterprise_crm.Common.Text.{encode_uri_component}
use enterprise_crm.Http.{Json, null, str, obj, field, end, Method}
use enterprise_crm.Client.Methods.{Sends, no_options, get_with, send_json, delete_at}

-- `?name=…` where a filter is given, and nothing where it is not.
abbrev pub filter : String → Option String → String
filter name none = ""
filter name (some value) =
    if value == "" then "" else "?" <> name <> "=" <> encode_uri_component value

abbrev read : String → Sends
read path = get_with path no_options

-- `savedViews`
abbrev pub list_saved_views : Option String → Sends
list_saved_views resource = read ("/v3/saved-views" <> filter "resource" resource)

abbrev pub create_saved_view : Json → Sends
create_saved_view payload = send_json Method.post "/v3/saved-views" payload

abbrev pub update_saved_view : String → Json → Sends
update_saved_view id payload = send_json Method.patch ("/v3/saved-views/" <> id) payload

abbrev pub remove_saved_view : String → Sends
remove_saved_view id = delete_at ("/v3/saved-views/" <> id)

-- `customFields`
abbrev pub list_custom_fields : Option String → Sends
list_custom_fields entity_type = read ("/v3/custom-fields" <> filter "entity_type" entity_type)

abbrev pub create_custom_field : Json → Sends
create_custom_field payload = send_json Method.post "/v3/custom-fields" payload

abbrev pub update_custom_field : String → Json → Sends
update_custom_field id payload = send_json Method.patch ("/v3/custom-fields/" <> id) payload

abbrev pub remove_custom_field : String → Sends
remove_custom_field id = delete_at ("/v3/custom-fields/" <> id)

abbrev values_path : String → String → String
values_path entity_type entity_id =
    "/v3/custom-fields/" <> entity_type <> "/" <> entity_id <> "/values"

abbrev pub custom_values : String → String → Sends
custom_values entity_type entity_id = read (values_path entity_type entity_id)

abbrev pub save_custom_values : String → String → Json → Sends
save_custom_values entity_type entity_id values =
    send_json Method.put (values_path entity_type entity_id) (obj (field "values" values end))

-- `automation`
abbrev pub list_workflows : Sends
list_workflows = read "/v3/automation/workflows"

abbrev pub create_workflow : Json → Sends
create_workflow payload = send_json Method.post "/v3/automation/workflows" payload

abbrev pub update_workflow : String → Json → Sends
update_workflow id payload = send_json Method.patch ("/v3/automation/workflows/" <> id) payload

abbrev pub remove_workflow : String → Sends
remove_workflow id = delete_at ("/v3/automation/workflows/" <> id)

abbrev pub run_workflow : String → Json → Sends
run_workflow id payload =
    send_json Method.post ("/v3/automation/workflows/" <> id <> "/run") payload

-- `intelligence`
abbrev pub data_quality : Sends
data_quality = read "/v3/intelligence/data-quality"

abbrev pub forecast : Sends
forecast = read "/v3/reports/forecast"

abbrev pub report : String → String → String → Sends
report resource metric group_by = read (
    "/v3/reports/builder?resource="
    <> encode_uri_component resource
    <> "&metric="
    <> encode_uri_component metric
    <> "&group_by="
    <> encode_uri_component group_by)

abbrev pub relationship_health : String → Sends
relationship_health company_id = read ("/v3/intelligence/relationship-health/" <> company_id)

abbrev pub morning_brief : Sends
morning_brief = read "/v3/intelligence/morning-brief"

abbrev pub lead_score : String → Sends
lead_score lead_id = read ("/v3/intelligence/lead-score/" <> lead_id)

abbrev pub win_loss : Sends
win_loss = read "/v3/reports/win-loss"

-- `goals` and `products`
abbrev pub list_goals : Sends
list_goals = read "/v3/goals"

abbrev pub create_goal : Json → Sends
create_goal payload = send_json Method.post "/v3/goals" payload

abbrev pub remove_goal : String → Sends
remove_goal id = delete_at ("/v3/goals/" <> id)

abbrev pub list_products : Bool → Sends
list_products include_inactive =
    read ("/v3/products?include_inactive=" <> (if include_inactive then "true" else "false"))

abbrev pub create_product : Json → Sends
create_product payload = send_json Method.post "/v3/products" payload

abbrev pub update_product : String → Json → Sends
update_product id payload = send_json Method.patch ("/v3/products/" <> id) payload

-- `quotes`
abbrev pub list_quotes : Sends
list_quotes = read "/v3/quotes"

abbrev pub create_quote : Json → Sends
create_quote payload = send_json Method.post "/v3/quotes" payload

abbrev pub get_quote : String → Sends
get_quote id = read ("/v3/quotes/" <> id)

-- `note || null`
abbrev note_or_null : Option String → Json
note_or_null none = null
note_or_null (some note) = if note == "" then null else str note

abbrev pub approve_quote : String → Option String → Sends
approve_quote id note =
    send_json Method.post ("/v3/quotes/" <> id <> "/approve")
      (obj (field "note" (note_or_null note) end))

abbrev pub reject_quote : String → Option String → Sends
reject_quote id note =
    send_json Method.post ("/v3/quotes/" <> id <> "/reject")
      (obj (field "note" (note_or_null note) end))
