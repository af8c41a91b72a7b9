-- ===== src/Planner.antt =====
-- frontend/src/features/planner/planner-workspace.tsx: the work that is due, by the day it is due on.
pub mod Agenda
pub mod Order
pub mod Week
use enterprise_crm.Common.{
  ◌≡◌, refl, ℕ, zero, suc, ◌+◌, ◌*◌, String, Bool, true, false, not, ◌||◌, ◌&&◌, Option, none, some,
  List, [], ◌∷◌, ◌++◌, ◌==◌, if◌then◌else◌, eqb, leb, ltb, map, filter, or_else,
}
use enterprise_crm.Hooks.{Loaded, content, api_failure, other_failure, get_error_message}

-- What the platform knows of dates: the time of a text, if it is one, and the local start of the day
-- of a time, in milliseconds from some day long ago.
pub record Dates : Type 0 where
  pub time_of : String → Option ℕ
  pub start_of_day : ℕ → ℕ

abbrev pub day_ms : ℕ
day_ms = 24 * 60 * 60 * 1000

-- The fields of tasks and activities that the planner reads.
pub record Task : Type 0 where
  pub id : String
  pub title : String
  pub status : String
  pub priority : String
  pub due_date : Option String

pub record Activity : Type 0 where
  pub id : String
  pub title : String
  pub type_name : String
  pub due_date : Option String

pub data PlannerItem : Type 0 where
  task_item : Task → PlannerItem
  activity_item : Activity → PlannerItem

abbrev pub due_date_of : PlannerItem → Option String
due_date_of (task_item task) = task.due_date
due_date_of (activity_item activity) = activity.due_date

pub data Bucket : Type 0 where
  overdue today week later unscheduled : Bucket

-- A date that is there: JavaScript's `!value` holds of "" as of null.
abbrev pub present : Option String → Option String
present none = none
present (some value) = if value == "" then none else some value

abbrev pub bucket_of_day : ℕ → ℕ → Bucket
bucket_of_day due_day today_time =
    if ltb due_day today_time
    then overdue
    else if eqb due_day today_time
    then today
    else if leb due_day (today_time + 7 * day_ms)
    then week
    else later

module _ (dates : Dates) where
  -- The time of a date that is there and that is one.
  unfoldable pub due_time : Option String → Option ℕ
  due_time value = elim (present value) [ none ↦ none | some date ↦ dates.time_of date ]

  unfoldable pub bucket_for : Option String → ℕ → Bucket
  unfolding due_time
  bucket_for value now = elim (due_time value) [
    | none ↦ unscheduled
    | some due ↦ bucket_of_day (dates.start_of_day due) (dates.start_of_day now)
  ]

-- What is asked for and comes back: nothing, where the reader may not see it.
pub record PlannerData : Type 0 where
  pub activities : List Activity
  pub error : Option String
  pub tasks : List Task

abbrev pub is_open : Task → Bool
is_open task = not (task.status == "completed" || task.status == "cancelled")

abbrev pub items_of : {A : Type 0} → Option (Loaded (List A)) → List A
items_of (some (content items)) = items
items_of _ = []

abbrev pub planner_error : {A : Type 0} → Option (Loaded (List A)) → Option String
planner_error none = none
planner_error (some result) = get_error_message "Unable to load your work planner." result

-- `fetchPlannerData`, once both requests have settled; a request that may not be made is none.
unfoldable pub fetch_planner_data :
    (can_read_tasks can_read_activities : Bool)
    → Loaded (List Task)
    → Loaded (List Activity)
    → PlannerData
unfolding filter get_error_message
fetch_planner_data can_read_tasks can_read_activities tasks activities =
    let task_result = if can_read_tasks then some tasks else none in
    let activity_result = if can_read_activities then some activities else none in
    record {
      activities = items_of activity_result;
      error = elim (planner_error task_result) [
        | none ↦ planner_error activity_result
        | some message ↦ some message
      ];
      tasks = filter is_open (items_of task_result);
    }

abbrev pub combined : PlannerData → List PlannerItem
combined found = map task_item found.tasks ++ map activity_item found.activities

-- The comparison that `sort` is given: whether `left` may stay before `right`. A date that is none
-- has no time, and a comparison with it tells `sort` nothing.
module _ (dates : Dates) where
  abbrev pub not_later : Option ℕ → Option ℕ → Bool
  not_later (some l) (some r) = leb l r
  not_later _ _ = true

  abbrev pub not_after : Option String → Option String → Bool
  not_after _ none = true
  not_after none (some right) = false
  not_after (some left) (some right) = not_later (dates.time_of left) (dates.time_of right)

  unfoldable pub may_precede : PlannerItem → PlannerItem → Bool
  may_precede left right = not_after (present (due_date_of left)) (present (due_date_of right))

  -- `sort` is stable: an item comes before those that it may stand before.
  unfoldable pub insert_item : PlannerItem → List PlannerItem → List PlannerItem
  unfolding may_precede
  insert_item item [] = item ∷ []
  insert_item item (first ∷ items) =
      let rest = insert_item item items in
      if may_precede item first then item ∷ first ∷ items else first ∷ rest

  unfoldable pub sort_items : List PlannerItem → List PlannerItem
  unfolding insert_item
  sort_items [] = []
  sort_items (item ∷ items) = insert_item item (sort_items items)

pub record Grouped : Type 0 where
  pub overdue_items : List PlannerItem
  pub today_items : List PlannerItem
  pub week_items : List PlannerItem
  pub later_items : List PlannerItem
  pub unscheduled_items : List PlannerItem

abbrev pub no_groups : Grouped
no_groups = record {
  overdue_items = [];
  today_items = [];
  week_items = [];
  later_items = [];
  unscheduled_items = [];
}

abbrev pub push_into : Bucket → PlannerItem → Grouped → Grouped
push_into overdue item groups = record groups { overdue_items = groups.overdue_items ++ item ∷ [] }
push_into today item groups = record groups { today_items = groups.today_items ++ item ∷ [] }
push_into week item groups = record groups { week_items = groups.week_items ++ item ∷ [] }
push_into later item groups = record groups { later_items = groups.later_items ++ item ∷ [] }
push_into unscheduled item groups = record groups {
  unscheduled_items = groups.unscheduled_items ++ item ∷ [];
}

module _ (dates : Dates) (now : ℕ) where
  -- The loop that fills `grouped`.
  unfoldable pub group_items : List PlannerItem → Grouped → Grouped
  unfolding bucket_for
  group_items [] groups = groups
  group_items (item ∷ items) groups =
      group_items items (push_into (bucket_for dates (due_date_of item) now) item groups)
