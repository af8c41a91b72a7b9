-- ===== src/Details.antt =====
-- The pages of one record: frontend/src/features/companies/company-detail.tsx, and those of contacts,
-- notes, tags, tasks, activities and deals, which have the same handlers.
pub mod Runs
pub mod Lead
use enterprise_crm.Common.{
  ◌≡◌, ℕ, String, Bool, true, false, not, Option, none, some, if◌then◌else◌, or_else, is_some,
}
use enterprise_crm.Hooks.{Loaded, content, api_failure, other_failure, get_error_message}

-- The state of a page, whether the effect's run is active, and the path that the router was sent to.
pub record Detail (A : Type 0) : Type 0 where
  pub value : Option A
  pub error : Option String
  pub is_editing : Bool
  pub is_loading : Bool
  pub is_saving : Bool
  pub is_deleting : Bool
  pub is_active : Bool
  pub replaced_by : Option String

abbrev pub mounted : {A : Type 0} → Detail A
mounted = record {
  value = none;
  error = none;
  is_editing = false;
  is_loading = true;
  is_saving = false;
  is_deleting = false;
  is_active = true;
  replaced_by = none;
}

-- What a page draws: that it loads, why there is no record, or the record with an error above it.
pub data View (A : Type 0) : Type 0 where
  loading : View A
  problem : String → View A
  shown : A → Option String → View A

-- The handlers of a page: its load has settled, the button that opens and closes the form, the form's
-- submission and the end of its call, the deletion, once it is confirmed, and the end of its call.
pub record Handlers (A : Type 0) : Type 1 where
  pub loaded : Loaded A → Detail A → Detail A
  pub toggle_editing : Detail A → Detail A
  pub cancel : Detail A → Detail A
  pub begin_update : Detail A → Detail A
  pub end_update : Loaded A → Detail A → Detail A
  pub begin_delete : (confirmed : Bool) → Detail A → Detail A
  pub end_delete : Loaded Unit → Detail A → Detail A
  pub view : Detail A → View A

module _ {A : Type 0} (fallback : String) where
  unfoldable pub load_settled : Loaded A → Detail A → Detail A
  unfolding get_error_message
  load_settled (content value) page =
      if page.is_active
      then record page { value = some value; error = none; is_loading = false }
      else page
  load_settled failure page =
      if page.is_active
      then record page { error = get_error_message fallback failure; is_loading = false }
      else page

  unfoldable pub update_settled : Loaded A → Detail A → Detail A
  unfolding get_error_message
  update_settled (content value) page = record page {
    value = some value;
    error = none;
    is_editing = false;
    is_saving = false;
  }
  update_settled failure page = record page {
    error = get_error_message fallback failure;
    is_saving = false;
  }

unfoldable pub delete_settled : {A : Type 0} → String → String → Loaded Unit → Detail A → Detail A
unfolding get_error_message
delete_settled fallback list_path (content done) page = record page { replaced_by = some list_path }
delete_settled fallback list_path failure page = record page {
  error = get_error_message fallback failure;
  is_deleting = false;
}

unfoldable pub view_of : {A : Type 0} → String → Detail A → View A
view_of missing page = if page.is_loading then loading else elim page.value [
  | none ↦ problem (or_else page.error missing)
  | some value ↦ shown value page.error
]

-- The handlers with the page's texts: for an error without a message, for a record that is missing,
-- and the path of the list.
unfoldable pub detail_of : {A : Type 0} → (fallback missing list_path : String) → Handlers A
unfolding load_settled update_settled delete_settled view_of
detail_of fallback missing list_path = record {
  loaded = load_settled fallback;
  toggle_editing = λ page. record page { is_editing = not page.is_editing };
  cancel = λ page. record page { is_editing = false };
  begin_update = λ page. record page { is_saving = true };
  end_update = update_settled fallback;
  begin_delete = λ confirmed page. if confirmed then record page { is_deleting = true } else page;
  end_delete = delete_settled fallback list_path;
  view = view_of missing;
}

module _ {A : Type 0} where
  abbrev pub company_detail : Handlers A
  company_detail =
      detail_of "Unable to load this company." "Company not found." "/dashboard/companies"

  abbrev pub contact_detail : Handlers A
  contact_detail =
      detail_of "Unable to load this contact." "Contact not found." "/dashboard/contacts"

  abbrev pub note_detail : Handlers A
  note_detail = detail_of "Unable to load this note." "Note not found." "/dashboard/notes"

  abbrev pub tag_detail : Handlers A
  tag_detail = detail_of "Unable to load this tag." "Tag not found." "/dashboard/tags"

  abbrev pub task_detail : Handlers A
  task_detail = detail_of "Unable to load this task." "Task not found." "/dashboard/tasks"

  abbrev pub activity_detail : Handlers A
  activity_detail =
      detail_of "Unable to load this activity." "Activity not found." "/dashboard/activities"

  abbrev pub deal_detail : Handlers A
  deal_detail = detail_of "Unable to load this deal." "Deal not found." "/dashboard/deals"

-- The cleanup of the effect.
abbrev pub unmount : {A : Type 0} → Detail A → Detail A
unmount page = record page { is_active = false }
