-- ===== src/Tests/Agenda.antt =====
-- The theorems on the planner and the inbox, on three items and two notifications.
use enterprise_crm.Common.{
  ◌≡◌, refl, String, Bool, true, false, Option, none, some, List, [], ◌∷◌, ◌==◌, if◌then◌else◌,
  filter, length, arith,
}
use enterprise_crm.Hooks.{content, api_failure}
use enterprise_crm.Planner.{
  Dates, PlannerItem, task_item, overdue, due_date_of, group_items, no_groups, sort_items,
}
use enterprise_crm.Planner.Agenda.{items_in, is_meant_for, group_items-filter}
use enterprise_crm.Planner.Order.{IsInOrder, due_at, sort_items-Sorts}
use enterprise_crm.Toasts.{no_toasts}
use enterprise_crm.Notifications.{
  Notification, Inbox, unread_only, end_mark_read, end_mark_selected, end_mark_all,
}
use enterprise_crm.Notifications.Refresh.{page_left, Ends, actions-End}

-- Two dates that are ones, a day apart.
abbrev two_dates : Dates
two_dates = record {
  time_of = λ date.
      if date == "first" then some 100000000 else if date == "second" then some 200000000 else none;
  start_of_day = λ time. time;
}

abbrev task_due : Option String → PlannerItem
task_due due =
    task_item
      (record { id = "t"; title = "Call"; status = "open"; priority = "high"; due_date = due })

abbrev three_items : List PlannerItem
three_items = task_due none ∷ task_due (some "second") ∷ task_due (some "first") ∷ []

group_items-filter_example :
    items_in overdue (group_items two_dates 150000000 three_items no_groups)
    ≡ filter
        (λ item. is_meant_for two_dates 150000000 overdue (due_at two_dates (due_date_of item)))
        three_items
group_items-filter_example = group_items-filter two_dates 150000000 overdue three_items

abbrev is_undated : PlannerItem → Bool
is_undated item = elim (due_date_of item) [ none ↦ true | some date ↦ false ]

sort_items-Sorts_example :
    IsInOrder two_dates (sort_items two_dates three_items)
    × (length (filter is_undated (sort_items two_dates three_items))
        ≡ length (filter is_undated three_items))
sort_items-Sorts_example =
    sort_items-Sorts two_dates three_items is_undated (tt, (refl, (refl, tt)))

abbrev notification : String → Bool → Notification
notification id is_read = record {
  id = id;
  entity_id = some "d1";
  entity_type = some "deal";
  is_read = is_read;
}

abbrev last_item : List Notification
last_item = notification "n1" false ∷ []

abbrev inbox : Inbox
inbox = record {
  read_state = unread_only;
  page = 2;
  is_marking_all_read = false;
  is_marking_bulk = false;
  marking_id = none;
  action_error = none;
  selected_ids = "n3" ∷ [];
  toaster = no_toasts;
  announced = 0;
  reloads = 0;
}

actions-End_example :
    Ends
      (page_left unread_only 2 1 1)
      (content tt)
      inbox
      (end_mark_read inbox last_item (content tt) inbox)
    × Ends {A = String}
        (page_left unread_only 2 1 1)
        (api_failure "busy")
        inbox
        (end_mark_selected inbox last_item (api_failure "busy") inbox)
    × Ends 1 (content tt) inbox (end_mark_all inbox (content tt) inbox)
actions-End_example =
    actions-End inbox inbox last_item (content tt) (api_failure "busy") (content tt) refl
      (omega arith)
