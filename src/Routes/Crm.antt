-- ===== src/Routes/Crm.antt =====
-- app/api: activities, companies, contacts, deals, leads, notes and tasks.
use enterprise_crm.Common.{String, ◌<>◌, [], ◌∷◌}
use enterprise_crm.Common.Text.{encode_uri_component}
use enterprise_crm.Http.{Method}
use enterprise_crm.Routes.Handlers.{RouteModule, forwards, get_post, get_patch_delete}

abbrev pub activities : RouteModule
activities = forwards get_post "/activities"

abbrev pub activity_path : String → String
activity_path activity_id = "/activities/" <> encode_uri_component activity_id

abbrev pub activity : String → RouteModule
activity activity_id = forwards get_patch_delete (activity_path activity_id)

abbrev pub companies : RouteModule
companies = forwards get_post "/companies"

abbrev pub company_path : String → String
company_path company_id = "/companies/" <> encode_uri_component company_id

abbrev pub company : String → RouteModule
company company_id = forwards get_patch_delete (company_path company_id)

abbrev pub contacts : RouteModule
contacts = forwards get_post "/contacts"

abbrev pub contact_path : String → String
contact_path contact_id = "/contacts/" <> encode_uri_component contact_id

abbrev pub contact : String → RouteModule
contact contact_id = forwards get_patch_delete (contact_path contact_id)

abbrev pub deals : RouteModule
deals = forwards get_post "/deals"

abbrev pub deal_path : String → String
deal_path deal_id = "/deals/" <> encode_uri_component deal_id

abbrev pub deal : String → RouteModule
deal deal_id = forwards get_patch_delete (deal_path deal_id)

abbrev pub leads : RouteModule
leads = forwards get_post "/leads"

abbrev pub lead_path : String → String
lead_path lead_id = "/leads/" <> encode_uri_component lead_id

abbrev pub lead : String → RouteModule
lead lead_id = forwards get_patch_delete (lead_path lead_id)

abbrev pub notes : RouteModule
notes = forwards get_post "/notes"

abbrev pub note_path : String → String
note_path note_id = "/notes/" <> encode_uri_component note_id

abbrev pub note : String → RouteModule
note note_id = forwards get_patch_delete (note_path note_id)

abbrev pub tasks : RouteModule
tasks = forwards get_post "/tasks"

abbrev pub task_path : String → String
task_path task_id = "/tasks/" <> encode_uri_component task_id

abbrev pub task : String → RouteModule
task task_id = forwards get_patch_delete (task_path task_id)

abbrev pub lead_convert_path : String → String
lead_convert_path lead_id = "/leads/" <> encode_uri_component lead_id <> "/convert"

abbrev pub lead_convert : String → RouteModule
lead_convert lead_id = forwards (Method.post ∷ []) (lead_convert_path lead_id)
