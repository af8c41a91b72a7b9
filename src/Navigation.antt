-- ===== src/Navigation.antt =====
-- frontend/src/components/layout/sidebar.tsx: the links of the sidebar, and who sees them.
pub mod Access
use enterprise_crm.Common.{
  ◌≡◌, refl, String, Bool, true, false, ◌||◌, ◌<>◌, ◌==◌, List, [], ◌∷◌, ◌++◌, if◌then◌else◌, all,
  any, filter,
}
use text.Mathlib.Text.{starts_with}

pub record NavigationItem : Type 0 where
  pub href : String
  pub label : String
  pub permissions : List String
  pub require_all : Bool
  pub exact : Bool

abbrev pub workspace_items : List NavigationItem
workspace_items =
    (record {
      href = "/dashboard";
      label = "Dashboard";
      permissions = "dashboard.read" ∷ [];
      require_all = false;
      exact = false;
    })
    ∷ (record {
      href = "/dashboard/notifications";
      label = "Inbox";
      permissions = "notifications.read" ∷ [];
      require_all = false;
      exact = false;
    })
    ∷ (record {
      href = "/dashboard/search";
      label = "Search";
      permissions = "search.read" ∷ [];
      require_all = false;
      exact = false;
    })
    ∷ []

abbrev pub customers_items : List NavigationItem
customers_items =
    (record {
      href = "/dashboard/companies";
      label = "Companies";
      permissions = "companies.read" ∷ [];
      require_all = false;
      exact = false;
    })
    ∷ (record {
      href = "/dashboard/contacts";
      label = "Contacts";
      permissions = "contacts.read" ∷ [];
      require_all = false;
      exact = false;
    })
    ∷ (record {
      href = "/dashboard/leads";
      label = "Leads";
      permissions = "leads.read" ∷ [];
      require_all = false;
      exact = false;
    })
    ∷ []

abbrev pub sales_items : List NavigationItem
sales_items =
    (record {
      href = "/dashboard/pipelines";
      label = "Pipelines";
      permissions = "pipelines.read" ∷ [];
      require_all = false;
      exact = false;
    })
    ∷ (record {
      href = "/dashboard/deals";
      label = "Deals";
      permissions = "deals.read" ∷ [];
      require_all = false;
      exact = true;
    })
    ∷ (record {
      href = "/dashboard/deals/board";
      label = "Sales board";
      permissions = "deals.read" ∷ "pipelines.read" ∷ [];
      require_all = true;
      exact = false;
    })
    ∷ []

abbrev pub intelligence_items : List NavigationItem
intelligence_items =
    (record {
      href = "/dashboard/intelligence";
      label = "Intelligence center";
      permissions = "reports.read" ∷ "data_quality.read" ∷ "ai.use" ∷ [];
      require_all = false;
      exact = false;
    })
    ∷ (record {
      href = "/dashboard/automation";
      label = "Workflow studio";
      permissions = "automations.read" ∷ [];
      require_all = false;
      exact = false;
    })
    ∷ (record {
      href = "/dashboard/revenue";
      label = "Revenue studio";
      permissions = "reports.read" ∷ "goals.read" ∷ "products.read" ∷ "quotes.read" ∷ [];
      require_all = false;
      exact = false;
    })
    ∷ (record {
      href = "/dashboard/sequences";
      label = "Sales sequences";
      permissions = "sequences.read" ∷ [];
      require_all = false;
      exact = false;
    })
    ∷ (record {
      href = "/dashboard/views";
      label = "Saved views";
      permissions = "saved_views.read" ∷ [];
      require_all = false;
      exact = false;
    })
    ∷ []

abbrev pub work_items : List NavigationItem
work_items =
    (record {
      href = "/dashboard/planner";
      label = "Planner";
      permissions = "tasks.read" ∷ "activities.read" ∷ [];
      require_all = false;
      exact = false;
    })
    ∷ (record {
      href = "/dashboard/tasks";
      label = "Tasks";
      permissions = "tasks.read" ∷ [];
      require_all = false;
      exact = false;
    })
    ∷ (record {
      href = "/dashboard/activities";
      label = "Activities";
      permissions = "activities.read" ∷ [];
      require_all = false;
      exact = false;
    })
    ∷ (record {
      href = "/dashboard/notes";
      label = "Notes";
      permissions = "notes.read" ∷ [];
      require_all = false;
      exact = false;
    })
    ∷ (record {
      href = "/dashboard/tags";
      label = "Tags";
      permissions = "tags.read" ∷ [];
      require_all = false;
      exact = false;
    })
    ∷ []

abbrev pub manage_items : List NavigationItem
manage_items =
    (record {
      href = "/dashboard/import-export";
      label = "Import & export";
      permissions = "imports.create" ∷ "exports.create" ∷ [];
      require_all = false;
      exact = false;
    })
    ∷ (record {
      href = "/dashboard/settings";
      label = "Settings";
      permissions =
          "settings.read" ∷ "profile.read" ∷ "organizations.read" ∷ "users.read" ∷ "roles.read"
          ∷ "audit_logs.read" ∷ [];
      require_all = false;
      exact = false;
    })
    ∷ []

abbrev pub navigation_items : List NavigationItem
navigation_items =
    workspace_items
    ++ (customers_items ++ (sales_items ++ (intelligence_items ++ (work_items ++ (manage_items)))))

-- A Set of the names of the reader's permissions.
unfoldable pub has : String → List String → Bool
has name [] = false
has name (other ∷ names) = other == name || has name names

abbrev is_empty : List String → Bool
is_empty [] = true
is_empty (name ∷ names) = false

unfoldable pub can_access : NavigationItem → List String → Bool
can_access item names =
    if is_empty item.permissions
    then true
    else if item.require_all
    then all (λ permission. has permission names) item.permissions
    else any (λ permission. has permission names) item.permissions

unfoldable pub is_active_path : String → NavigationItem → Bool
is_active_path pathname item =
    if item.exact || item.href == "/dashboard"
    then pathname == item.href
    else pathname == item.href || starts_with pathname (item.href <> "/")

unfoldable pub visible_items : List String → List NavigationItem → List NavigationItem
unfolding can_access filter
visible_items names = filter (λ item. can_access item names)
