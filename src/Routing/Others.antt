-- ===== src/Routing/Others.antt =====
-- The services whose paths are fixed but for a query, and the routes that they reach.
use enterprise_crm.Common.{refl, ap, String, List, [], ◌∷◌}
use enterprise_crm.Http.{Json, Method}
use enterprise_crm.Routes.Account.{
  users, roles, role_permissions, profile, profile_password, organization, audit_logs, dashboard,
  dashboard_analytics, dashboard_health, search_route, notifications, notifications_read_all,
  notifications_read_bulk,
}
use enterprise_crm.Routes.Files.{attachments}
use enterprise_crm.Services.{
  list_attachments, list_notifications, mark_all_read, mark_bulk_read, create_role, list_roles,
  list_permissions, change_password, create_user, get_profile, list_users, update_profile,
  get_operational_health, get_analytics, get_dashboard, get_organization, update_organization,
  search, list_audit_logs, sign_in_with, get_current_user, sign_out,
}
use enterprise_crm.Services.Query.{QueryValue, number, words}
use enterprise_crm.Auth.Login.{login}
use enterprise_crm.Auth.Routes.{me, logout}
use enterprise_crm.Routing.{segments, match_path, find_route, dispatch, after_root, Reaches}
use enterprise_crm.Routing.Records.{list_segments}

-- The calls whose path is fixed.
abbrev pub AccountReach : Json → List String → Type 0
AccountReach input ids =
    Reaches (sign_in_with input) ((Method.post, login) ∷ [])
    × Reaches get_current_user ((Method.get, me) ∷ [])
    × Reaches sign_out ((Method.post, logout) ∷ [])
    × Reaches (create_role input) roles
    × Reaches list_roles roles
    × Reaches list_permissions role_permissions
    × Reaches (change_password input) profile_password
    × Reaches get_profile profile
    × Reaches (update_profile input) profile
    × Reaches (create_user input) users
    × Reaches get_dashboard dashboard
    × Reaches get_analytics dashboard_analytics
    × Reaches get_operational_health dashboard_health
    × Reaches get_organization organization
    × Reaches (update_organization input) organization
    × Reaches mark_all_read notifications_read_all
    × Reaches (mark_bulk_read ids) notifications_read_bulk

-- Every call of the services of the session, the account and the dashboard whose path is fixed leads
-- to the module of this path, and the module has a handler for the call's method.
pub account-Reach : (input : Json) (ids : List String) → AccountReach input ids
unfolding dispatch find_route match_path segments
account-Reach input ids = (
  (refl, refl),
  (refl, refl),
  (refl, refl),
  (refl, refl),
  (refl, refl),
  (refl, refl),
  (refl, refl),
  (refl, refl),
  (refl, refl),
  (refl, refl),
  (refl, refl),
  (refl, refl),
  (refl, refl),
  (refl, refl),
  (refl, refl),
  (refl, refl),
  (refl, refl),
)

-- The calls that list by a query.
abbrev pub ListsReach : List (String × QueryValue) → String → Type 0
ListsReach params query =
    Reaches (list_users params) users
    × Reaches (list_notifications params) notifications
    × Reaches (list_attachments params) attachments
    × Reaches (list_audit_logs params) audit_logs
    × Reaches (search query) search_route

-- Every call that lists by a query leads to its table's module, whatever the filters are, and the
-- module handles it: no value of a filter changes the path.
pub lists-Reach : (params : List (String × QueryValue)) (query : String) → ListsReach params query
unfolding dispatch find_route match_path segments
lists-Reach params query = (
  (ap after_root (list_segments "/users" params refl), refl),
  (ap after_root (list_segments "/notifications" params refl), refl),
  (ap after_root (list_segments "/attachments" params refl), refl),
  (ap after_root (list_segments "/audit-logs" params refl), refl),
  (
    ap after_root
        (list_segments "/search" (("limit_per_type", number 10) ∷ ("q", words query) ∷ []) refl),
    refl,
  ),
)
