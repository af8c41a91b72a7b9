-- ===== src/Palette/Commands.antt =====
-- frontend/src/components/command/command-palette.tsx: the commands, and who may use them.
use enterprise_crm.Common.{String, Bool, true, false, List, [], ◌∷◌, ◌++◌, if◌then◌else◌, all, any}
use enterprise_crm.Navigation.{has}

pub record StaticCommand : Type 0 where
  pub href : String
  pub label : String
  pub permissions : List String
  pub require_all : Bool

abbrev pub page_commands : List StaticCommand
page_commands =
    (record {
      href = "/dashboard";
      label = "Dashboard";
      permissions = "dashboard.read" ∷ [];
      require_all = false;
    })
    ∷ (record {
      href = "/dashboard/planner";
      label = "Planner";
      permissions = "tasks.read" ∷ "activities.read" ∷ [];
      require_all = false;
    })
    ∷ (record {
      href = "/dashboard/companies";
      label = "Companies";
      permissions = "companies.read" ∷ [];
      require_all = false;
    })
    ∷ (record {
      href = "/dashboard/contacts";
      label = "Contacts";
      permissions = "contacts.read" ∷ [];
      require_all = false;
    })
    ∷ (record {
      href = "/dashboard/leads";
      label = "Leads";
      permissions = "leads.read" ∷ [];
      require_all = false;
    })
    ∷ (record {
      href = "/dashboard/deals/board";
      label = "Sales board";
      permissions = "deals.read" ∷ "pipelines.read" ∷ [];
      require_all = true;
    })
    ∷ (record {
      href = "/dashboard/deals";
      label = "Deals";
      permissions = "deals.read" ∷ [];
      require_all = false;
    })
    ∷ (record {
      href = "/dashboard/tasks";
      label = "Tasks";
      permissions = "tasks.read" ∷ [];
      require_all = false;
    })
    ∷ (record {
      href = "/dashboard/activities";
      label = "Activities";
      permissions = "activities.read" ∷ [];
      require_all = false;
    })
    ∷ (record {
      href = "/dashboard/notes";
      label = "Notes";
      permissions = "notes.read" ∷ [];
      require_all = false;
    })
    ∷ (record {
      href = "/dashboard/notifications";
      label = "Inbox";
      permissions = "notifications.read" ∷ [];
      require_all = false;
    })
    ∷ (record {
      href = "/dashboard/settings";
      label = "Settings";
      permissions =
          "settings.read" ∷ "profile.read" ∷ "users.read" ∷ "roles.read" ∷ "organizations.read"
          ∷ [];
      require_all = false;
    })
    ∷ []

abbrev pub create_commands : List StaticCommand
create_commands =
    (record {
      href = "/dashboard/companies?create=1";
      label = "Create company";
      permissions = "companies.create" ∷ [];
      require_all = false;
    })
    ∷ (record {
      href = "/dashboard/contacts?create=1";
      label = "Create contact";
      permissions = "contacts.create" ∷ [];
      require_all = false;
    })
    ∷ (record {
      href = "/dashboard/leads?create=1";
      label = "Create lead";
      permissions = "leads.create" ∷ [];
      require_all = false;
    })
    ∷ (record {
      href = "/dashboard/deals?create=1";
      label = "Create deal";
      permissions = "deals.create" ∷ [];
      require_all = false;
    })
    ∷ (record {
      href = "/dashboard/tasks?create=1";
      label = "Create task";
      permissions = "tasks.create" ∷ [];
      require_all = false;
    })
    ∷ (record {
      href = "/dashboard/activities?create=1";
      label = "Create activity";
      permissions = "activities.create" ∷ [];
      require_all = false;
    })
    ∷ []

abbrev pub commands : List StaticCommand
commands = page_commands ++ create_commands

abbrev is_empty : List String → Bool
is_empty [] = true
is_empty (name ∷ names) = false

unfoldable pub has_access : StaticCommand → List String → Bool
unfolding has
has_access command names =
    if is_empty command.permissions
    then true
    else if command.require_all
    then all (λ permission. has permission names) command.permissions
    else any (λ permission. has permission names) command.permissions
