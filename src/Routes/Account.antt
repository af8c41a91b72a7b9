-- ===== src/Routes/Account.antt =====
-- app/api: users, roles, profile, organization, audit logs, dashboard, search and notifications.
use enterprise_crm.Common.{String, ◌<>◌, [], ◌∷◌}
use enterprise_crm.Common.Text.{encode_uri_component}
use enterprise_crm.Http.{Method}
use enterprise_crm.Routes.Handlers.{RouteModule, forwards, get_post, get_patch_delete}

abbrev pub users : RouteModule
users = forwards get_post "/users"

abbrev pub user_path : String → String
user_path user_id = "/users/" <> encode_uri_component user_id

abbrev pub user : String → RouteModule
user user_id = forwards (Method.get ∷ Method.patch ∷ []) (user_path user_id)

abbrev pub roles : RouteModule
roles = forwards get_post "/roles"

abbrev pub role_path : String → String
role_path role_id = "/roles/" <> encode_uri_component role_id

abbrev pub role : String → RouteModule
role role_id = forwards get_patch_delete (role_path role_id)

abbrev pub role_permissions : RouteModule
role_permissions = forwards (Method.get ∷ []) "/roles/permissions"

abbrev pub profile : RouteModule
profile = forwards (Method.get ∷ Method.patch ∷ []) "/profile"

abbrev pub profile_password : RouteModule
profile_password = forwards (Method.post ∷ []) "/profile/password"

abbrev pub organization : RouteModule
organization = forwards (Method.get ∷ Method.patch ∷ []) "/organization"

abbrev pub audit_logs : RouteModule
audit_logs = forwards (Method.get ∷ []) "/audit-logs"

abbrev pub dashboard : RouteModule
dashboard = forwards (Method.get ∷ []) "/dashboard"

abbrev pub dashboard_analytics : RouteModule
dashboard_analytics = forwards (Method.get ∷ []) "/dashboard/analytics"

abbrev pub dashboard_health : RouteModule
dashboard_health = forwards (Method.get ∷ []) "/dashboard/health"

abbrev pub search_route : RouteModule
search_route = forwards (Method.get ∷ []) "/search"

abbrev pub notifications : RouteModule
notifications = forwards (Method.get ∷ []) "/notifications"

abbrev pub notifications_read_all : RouteModule
notifications_read_all = forwards (Method.post ∷ []) "/notifications/read-all"

abbrev pub notifications_read_bulk : RouteModule
notifications_read_bulk = forwards (Method.post ∷ []) "/notifications/read-bulk"

-- The parameter is inserted as it is.
abbrev pub notification_read_path : String → String
notification_read_path notification_id = "/notifications/" <> notification_id <> "/read"

abbrev pub notification_read : String → RouteModule
notification_read notification_id =
    forwards (Method.post ∷ []) (notification_read_path notification_id)
