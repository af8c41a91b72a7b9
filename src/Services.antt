-- ===== src/Services.antt =====
-- frontend/src/services: the calls that the pages make.
pub mod Query
pub mod V3
pub mod Extensions
use enterprise_crm.Common.{String, ◌<>◌, Option, none, some, List, [], ◌∷◌}
use enterprise_crm.Http.{Json, str, obj, arr, field, end, Items, nil, cons, Method}
use enterprise_crm.Client.{ClientBody, form_data, FormValue, form_text, form_file}
use enterprise_crm.Client.Methods.{
  Sends, no_options, no_store, get_with, send_body, send_json, delete_at,
}
use enterprise_crm.Services.Query.{QueryValue, number, words, to_query_string}

-- The five operations that most services have.
pub record RecordService : Type 0 where
  pub create : Json → Sends
  pub get : String → Sends
  pub list : List (String × QueryValue) → Sends
  pub remove : String → Sends
  pub update : String → Json → Sends

-- They all have the same form, over the table's path.
abbrev pub record_service : String → RecordService
record_service table = record {
  create = λ input. send_json Method.post table input;
  get = λ id. get_with (table <> "/" <> id) no_store;
  list = λ params. get_with (table <> to_query_string params) no_store;
  remove = λ id. delete_at (table <> "/" <> id);
  update = λ id input. send_json Method.patch (table <> "/" <> id) input;
}

abbrev pub activity_service : RecordService
activity_service = record_service "/activities"

abbrev pub company_service : RecordService
company_service = record_service "/companies"

abbrev pub contact_service : RecordService
contact_service = record_service "/contacts"

abbrev pub deal_service : RecordService
deal_service = record_service "/deals"

abbrev pub lead_service : RecordService
lead_service = record_service "/leads"

abbrev pub convert : String → Json → Sends
convert lead_id input = send_json Method.post ("/leads/" <> lead_id <> "/convert") input

abbrev pub note_service : RecordService
note_service = record_service "/notes"

abbrev pub pipeline_service : RecordService
pipeline_service = record_service "/pipelines"

abbrev pub create_stage : String → Json → Sends
create_stage pipeline_id input =
    send_json Method.post ("/pipelines/" <> pipeline_id <> "/stages") input

abbrev pub remove_stage : String → String → Sends
remove_stage pipeline_id stage_id =
    delete_at ("/pipelines/" <> pipeline_id <> "/stages/" <> stage_id)

abbrev pub update_stage : String → String → Json → Sends
update_stage pipeline_id stage_id input =
    send_json Method.patch ("/pipelines/" <> pipeline_id <> "/stages/" <> stage_id) input

abbrev pub tag_service : RecordService
tag_service = record_service "/tags"

abbrev assigned : String → String → String → String
assigned tag_id entity_type entity_id =
    "/tags/" <> tag_id <> "/assignments/" <> entity_type <> "/" <> entity_id

abbrev pub assign : String → String → String → Sends
assign tag_id entity_type entity_id =
    send_body Method.put (assigned tag_id entity_type entity_id) none

abbrev pub unassign : String → String → String → Sends
unassign tag_id entity_type entity_id = delete_at (assigned tag_id entity_type entity_id)

abbrev pub task_service : RecordService
task_service = record_service "/tasks"

-- A file is its name and its content.
abbrev pub upload : String → String → String → String → Sends
upload entity_type entity_id name content = send_body Method.post "/attachments" (
    some (
      form_data (
        ("entity_type", form_text entity_type)
        ∷ ("entity_id", form_text entity_id)
        ∷ ("file", form_file name content)
        ∷ [])))

abbrev pub list_attachments : List (String × QueryValue) → Sends
list_attachments params = get_with ("/attachments" <> to_query_string params) no_store

abbrev pub remove_attachment : String → Sends
remove_attachment attachment_id = delete_at ("/attachments/" <> attachment_id)

abbrev pub attachment_download_path : String → String
attachment_download_path attachment_id = "/api/attachments/" <> attachment_id <> "/download"

abbrev pub list_notifications : List (String × QueryValue) → Sends
list_notifications params = get_with ("/notifications" <> to_query_string params) no_store

abbrev pub mark_all_read : Sends
mark_all_read = send_body Method.post "/notifications/read-all" none

abbrev items_of : List String → Items
items_of [] = nil
items_of (s ∷ ss) = cons (str s) (items_of ss)

abbrev pub mark_bulk_read : List String → Sends
mark_bulk_read ids =
    send_json Method.post "/notifications/read-bulk"
      (obj (field "notification_ids" (arr (items_of ids)) end))

abbrev pub mark_read : String → Sends
mark_read notification_id =
    send_body Method.post ("/notifications/" <> notification_id <> "/read") none

abbrev pub create_role : Json → Sends
create_role input = send_json Method.post "/roles" input

abbrev pub list_roles : Sends
list_roles = get_with "/roles" no_store

abbrev pub list_permissions : Sends
list_permissions = get_with "/roles/permissions" no_store

abbrev pub remove_role : String → Sends
remove_role role_id = delete_at ("/roles/" <> role_id)

abbrev pub update_role : String → Json → Sends
update_role role_id input = send_json Method.patch ("/roles/" <> role_id) input

abbrev pub change_password : Json → Sends
change_password input = send_json Method.post "/profile/password" input

abbrev pub create_user : Json → Sends
create_user input = send_json Method.post "/users" input

abbrev pub get_profile : Sends
get_profile = get_with "/profile" no_store

abbrev pub list_users : List (String × QueryValue) → Sends
list_users params = get_with ("/users" <> to_query_string params) no_store

abbrev pub update_user : String → Json → Sends
update_user user_id input = send_json Method.patch ("/users/" <> user_id) input

abbrev pub update_profile : Json → Sends
update_profile input = send_json Method.patch "/profile" input

abbrev pub get_operational_health : Sends
get_operational_health = get_with "/dashboard/health" no_store

abbrev pub get_analytics : Sends
get_analytics = get_with "/dashboard/analytics" no_store

abbrev pub get_dashboard : Sends
get_dashboard = get_with "/dashboard" no_store

abbrev pub export_path : String → String
export_path resource = "/api/import-export/" <> resource

abbrev pub import_csv : String → String → String → Sends
import_csv resource name content =
    send_body Method.post ("/import-export/" <> resource)
      (some (form_data (("file", form_file name content) ∷ [])))

abbrev pub get_organization : Sends
get_organization = get_with "/organization" no_store

abbrev pub update_organization : Json → Sends
update_organization input = send_json Method.patch "/organization" input

abbrev pub search : String → Sends
search query =
    get_with
      ("/search" <> to_query_string (("limit_per_type", number 10) ∷ ("q", words query) ∷ []))
      no_store

abbrev pub list_audit_logs : List (String × QueryValue) → Sends
list_audit_logs params = get_with ("/audit-logs" <> to_query_string params) no_store

abbrev pub sign_in_with : Json → Sends
sign_in_with credentials = send_json Method.post "/auth/login" credentials

abbrev pub get_current_user : Sends
get_current_user = get_with "/auth/me" no_store

abbrev pub sign_out : Sends
sign_out = send_body Method.post "/auth/logout" none
