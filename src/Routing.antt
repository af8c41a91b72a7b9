-- ===== src/Routing.antt =====
-- frontend/src/app/api: the tree of route modules, and the one that a path of the client reaches.
pub mod Segments
pub mod Records
pub mod Others
pub mod Nested
pub mod V3
use Prim.Native.Char.{Char, code}
use enterprise_crm.Common.{
  ◌≡◌, String, Bool, true, false, Option, none, some, List, [], ◌∷◌, eqb, ◌==◌, ◌||◌, if◌then◌else◌,
}
use enterprise_crm.Http.{Method, Server, Request}
use enterprise_crm.Auth.Login.{login}
use enterprise_crm.Auth.Mfa.{mfa}
use enterprise_crm.Auth.Routes.{me, logout, refresh}
use enterprise_crm.Client.{method_of}
use enterprise_crm.Client.Methods.{Sends}
use enterprise_crm.Routes.Handlers.{Handler, RouteModule}
use enterprise_crm.Routes.Crm.{
  activities, activity, companies, company, contacts, contact, deals, deal, leads, lead,
  lead_convert, notes, note, tasks, task,
}
use enterprise_crm.Routes.Sales.{pipelines, pipeline, stages, stage, tags, tag, assignment}
use enterprise_crm.Routes.Account.{
  users, user, roles, role, role_permissions, profile, profile_password, organization, audit_logs,
  dashboard, dashboard_analytics, dashboard_health, search_route, notifications,
  notifications_read_all, notifications_read_bulk, notification_read,
}
use enterprise_crm.Routes.Files.{attachments, attachment, attachment_download, import_export}
use enterprise_crm.Routes.V3.{v3}
use enterprise_crm.Routes.Stream.{copilot_stream}

abbrev pub push : Char → List String → List String
push c [] = String.◌∷◌ c String.[] ∷ []
push c (x ∷ xs) = String.◌∷◌ c x ∷ xs

-- The segments of a path, up to its query.
unfoldable pub segments : String → List String
segments String.[] = String.[] ∷ []
segments (String.◌∷◌ c s) = elim (eqb (code c) b'?') [
  | true ↦ String.[] ∷ []
  | false ↦ elim (eqb (code c) b'/') [ true ↦ String.[] ∷ segments s | false ↦ push c (segments s) ]
]

-- A folder of the tree: its name, `[name]` or `[...name]`.
pub data Folder : Type 0 where
  fixed : String → Folder
  param rest : Folder

abbrev is_empty : String → Bool
is_empty String.[] = true
is_empty (String.◌∷◌ c s) = false

abbrev add_param : String → Option (List String) → Option (List String)
add_param s none = none
add_param s (some params) = some (s ∷ params)

-- The parameters of a path that leads to the module in these folders. Next.js decodes them.
unfoldable pub match_path : List Folder → List String → Option (List String)
match_path [] [] = some []
match_path (fixed name ∷ folders) (s ∷ ss) = elim (s == name) [
  | true ↦ match_path folders ss
  | false ↦ none
]
match_path (param ∷ folders) (s ∷ ss) = elim (is_empty s) [
  | true ↦ none
  | false ↦ add_param s (match_path folders ss)
]
match_path (rest ∷ []) (s ∷ ss) = some (s ∷ ss)
match_path _ _ = none

abbrev pub Entry : Type 0
Entry = List Folder × (List String → RouteModule)

abbrev at : String → RouteModule → Entry
at name route = (fixed name ∷ [], λ _. route)

abbrev below : String → String → RouteModule → Entry
below name sub route = (fixed name ∷ fixed sub ∷ [], λ _. route)

abbrev one_param : (String → RouteModule) → List String → RouteModule
one_param route (a ∷ []) = route a
one_param route _ = []

abbrev two_params : (String → String → RouteModule) → List String → RouteModule
two_params route (a ∷ b ∷ []) = route a b
two_params route _ = []

abbrev three_params : (String → String → String → RouteModule) → List String → RouteModule
three_params route (a ∷ b ∷ c ∷ []) = route a b c
three_params route _ = []

abbrev each : String → (String → RouteModule) → Entry
each name route = (fixed name ∷ param ∷ [], one_param route)

abbrev within : String → String → (String → RouteModule) → Entry
within name sub route = (fixed name ∷ param ∷ fixed sub ∷ [], one_param route)

abbrev auth_table : List Entry
auth_table =
    below "auth" "login" ((Method.post, login) ∷ [])
    ∷ below "auth" "me" ((Method.get, me) ∷ [])
    ∷ below "auth" "logout" ((Method.post, logout) ∷ [])
    ∷ below "auth" "refresh" ((Method.post, refresh) ∷ [])
    ∷ (
      fixed "auth" ∷ fixed "mfa" ∷ param ∷ [],
      one_param (λ action. (Method.post, λ server request. mfa server request action) ∷ []),
    )
    ∷ []

-- The modules; of two that a path may lead to, the one with more names of its own comes first.
abbrev crm_table : List Entry
crm_table =
    at "activities" activities
    ∷ each "activities" activity
    ∷ at "companies" companies
    ∷ each "companies" company
    ∷ at "contacts" contacts
    ∷ each "contacts" contact
    ∷ at "deals" deals
    ∷ each "deals" deal
    ∷ at "leads" leads
    ∷ each "leads" lead
    ∷ within "leads" "convert" lead_convert
    ∷ at "notes" notes
    ∷ each "notes" note
    ∷ at "tasks" tasks
    ∷ each "tasks" task
    ∷ at "pipelines" pipelines
    ∷ each "pipelines" pipeline
    ∷ within "pipelines" "stages" stages
    ∷ (fixed "pipelines" ∷ param ∷ fixed "stages" ∷ param ∷ [], two_params stage)
    ∷ at "tags" tags
    ∷ each "tags" tag
    ∷ (fixed "tags" ∷ param ∷ fixed "assignments" ∷ param ∷ param ∷ [], three_params assignment)
    ∷ []

abbrev account_table : List Entry
account_table =
    at "users" users
    ∷ each "users" user
    ∷ at "roles" roles
    ∷ below "roles" "permissions" role_permissions
    ∷ each "roles" role
    ∷ at "profile" profile
    ∷ below "profile" "password" profile_password
    ∷ at "organization" organization
    ∷ at "audit-logs" audit_logs
    ∷ at "dashboard" dashboard
    ∷ below "dashboard" "analytics" dashboard_analytics
    ∷ below "dashboard" "health" dashboard_health
    ∷ at "search" search_route
    ∷ at "notifications" notifications
    ∷ within "notifications" "read" notification_read
    ∷ below "notifications" "read-all" notifications_read_all
    ∷ below "notifications" "read-bulk" notifications_read_bulk
    ∷ at "attachments" attachments
    ∷ each "attachments" attachment
    ∷ within "attachments" "download" attachment_download
    ∷ each "import-export" import_export
    ∷ []

abbrev v3_table : List Entry
v3_table =
    (
      fixed "v3" ∷ fixed "ai" ∷ fixed "copilot" ∷ fixed "stream" ∷ [],
      λ _. (Method.post, copilot_stream) ∷ [],
    )
    ∷ (fixed "v3" ∷ rest ∷ [], v3)
    ∷ []

unfoldable pub find_route : List Entry → List String → Option RouteModule
unfolding match_path
find_route [] ss = none
find_route ((folders, route) ∷ entries) ss = elim (match_path folders ss) [
  | some params ↦ some (route params)
  | none ↦ find_route entries ss
]

abbrev or_find : Option RouteModule → Option RouteModule → Option RouteModule
or_find (some route) other = some route
or_find none other = other

abbrev after_root : List String → Option RouteModule
after_root [] = none
after_root (root ∷ ss) = or_find (find_route auth_table ss) (
    or_find (find_route crm_table ss)
      (or_find (find_route account_table ss) (find_route v3_table ss)))

-- The module that a path below `/api` leads to.
unfoldable pub dispatch : String → Option RouteModule
unfolding segments find_route
dispatch path = after_root (segments path)

abbrev same_method : Method → Method → Bool
same_method Method.get Method.get = true
same_method Method.head Method.head = true
same_method Method.options Method.options = true
same_method Method.post Method.post = true
same_method Method.put Method.put = true
same_method Method.patch Method.patch = true
same_method Method.delete Method.delete = true
same_method _ _ = false

-- Whether a module exports a handler of this name.
abbrev pub handles : Method → RouteModule → Bool
handles method [] = false
handles method ((m, handler) ∷ route) = same_method method m || handles method route

-- A call of a service reaches this module, and the module has a handler for it.
abbrev pub Reaches : Sends → RouteModule → Type 0
Reaches (path, options) route =
    (dispatch path ≡ some route) × (handles (method_of options) route ≡ true)
