-- ===== src/Forms/Work.antt =====
-- The forms of frontend/src/features/tasks, activities and tags.
use enterprise_crm.Common.{String, Bool, false, Option, none, some, ◌==◌, if◌then◌else◌, or_else}
use enterprise_crm.Common.Text.{trim}
use enterprise_crm.Forms.{optional_text}

-- What the forms use of the platform's dates: a date as an input for local dates shows it, none where
-- the text is no date, and such an input's text as an instant.
pub record LocalDates : Type 0 where
  pub local_of : String → Option String
  pub iso_of : String → Option String

module _ (dates : LocalDates) where
  unfoldable pub to_date_time_local_value : Option String → String
  to_date_time_local_value none = ""
  to_date_time_local_value (some value) =
      if value == "" then "" else or_else (dates.local_of value) ""

  unfoldable pub to_iso_date_time : String → Option String
  to_iso_date_time value = if value == "" then none else dates.iso_of value

pub record TaskInput : Type 0 where
  pub description : Option String
  pub due_date : Option String
  pub priority : String
  pub status : String
  pub title : String

abbrev pub empty_task : TaskInput
empty_task = record {
  description = none;
  due_date = none;
  priority = "medium";
  status = "open";
  title = "";
}

pub record TaskFields : Type 0 where
  pub title : String
  pub description : String
  pub priority : String
  pub status : String
  pub due_date : String

pub record ActivityInput : Type 0 where
  pub company_id : Option String
  pub completed : Bool
  pub contact_id : Option String
  pub description : Option String
  pub due_date : Option String
  pub lead_id : Option String
  pub title : String
  pub type_name : String

abbrev pub empty_activity : ActivityInput
empty_activity = record {
  company_id = none;
  completed = false;
  contact_id = none;
  description = none;
  due_date = none;
  lead_id = none;
  title = "";
  type_name = "call";
}

pub record ActivityFields : Type 0 where
  pub type_name : String
  pub title : String
  pub description : String
  pub due_date : String
  pub completed : Bool

module _ (dates : LocalDates) where
  unfoldable pub open_task : TaskInput → TaskFields
  unfolding to_date_time_local_value
  open_task input = record {
    title = input.title;
    description = or_else input.description "";
    priority = input.priority;
    status = input.status;
    due_date = to_date_time_local_value dates input.due_date;
  }

  unfoldable pub submit_task : TaskFields → TaskInput
  unfolding to_iso_date_time optional_text trim
  submit_task fields = record {
    description = optional_text fields.description;
    due_date = to_iso_date_time dates fields.due_date;
    priority = fields.priority;
    status = fields.status;
    title = trim fields.title;
  }

  unfoldable pub open_activity : ActivityInput → ActivityFields
  unfolding to_date_time_local_value
  open_activity input = record {
    type_name = input.type_name;
    title = input.title;
    description = or_else input.description "";
    due_date = to_date_time_local_value dates input.due_date;
    completed = input.completed;
  }

  unfoldable pub submit_activity : ActivityFields → ActivityInput
  unfolding to_iso_date_time optional_text trim
  submit_activity fields = record {
    company_id = none;
    completed = fields.completed;
    contact_id = none;
    description = optional_text fields.description;
    due_date = to_iso_date_time dates fields.due_date;
    lead_id = none;
    title = trim fields.title;
    type_name = fields.type_name;
  }

-- The form of a tag; its fields are its values.
pub record TagInput : Type 0 where
  pub color : String
  pub name : String

abbrev pub initial_tag : TagInput
initial_tag = record { color = "#4f46e5"; name = "" }

unfoldable pub submit_tag : TagInput → TagInput
unfolding trim
submit_tag fields = record { color = fields.color; name = trim fields.name }
