-- ===== src/Notifications.antt =====
-- frontend/src/features/notifications/notifications-workspace.tsx: the inbox, with the toasts that it
-- raises; its texts are in English here, before their translation.
pub mod Selection
pub mod Refresh
use enterprise_crm.Common.{
  ◌≡◌, refl, ℕ, suc, ◌-◌, String, Bool, true, false, not, ◌&&◌, ◌||◌, Option, none, some, List, [],
  ◌∷◌, ◌++◌, ◌==◌, ◌<>◌, if◌then◌else◌, eqb, leb, ltb, length, all, map, filter,
}
use enterprise_crm.Common.Entries.{get}
use enterprise_crm.Hooks.{Loaded, content, api_failure, other_failure}
use enterprise_crm.Toasts.{ToastInput, Toaster, notify, success, ToastTone}
use enterprise_crm.Toasts

pub data NotificationReadState : Type 0 where
  either unread_only read_only : NotificationReadState

-- The fields of a notification that the inbox reads; `is_read` says whether `read_at` is there.
pub record Notification : Type 0 where
  pub id : String
  pub entity_id : Option String
  pub entity_type : Option String
  pub is_read : Bool

abbrev pub routes : List (String × String)
routes =
    ("activity", "activities")
    ∷ ("company", "companies")
    ∷ ("contact", "contacts")
    ∷ ("deal", "deals")
    ∷ ("lead", "leads")
    ∷ ("note", "notes")
    ∷ ("task", "tasks")
    ∷ []

abbrev route_path : Option String → String → Option String
route_path none id = none
route_path (some route) id = some ("/dashboard/" <> (route <> ("/" <> id)))

-- The page of what a notification is about; a type is none of Object.prototype's members.
unfoldable pub entity_href : Option String → Option String → Option String
unfolding get
entity_href none entity_type = none
entity_href (some id) none = none
entity_href (some id) (some entity_type) =
    if id == "" || entity_type == "" then none else route_path (get entity_type routes) id

-- A Set of ids, in the order in which they were added.
unfoldable pub has : String → List String → Bool
has id [] = false
has id (j ∷ ids) = j == id || has id ids

unfoldable pub add : String → List String → List String
unfolding has
add id ids = if has id ids then ids else ids ++ id ∷ []

unfoldable pub delete : String → List String → List String
delete id [] = []
delete id (j ∷ ids) = let rest = delete id ids in if j == id then rest else j ∷ rest

unfoldable pub add_all : List String → List String → List String
unfolding add
add_all [] ids = ids
add_all (id ∷ more) ids = add_all more (add id ids)

unfoldable pub delete_all : List String → List String → List String
unfolding delete
delete_all [] ids = ids
delete_all (id ∷ more) ids = delete_all more (delete id ids)

-- The component's state, the toasts, and how often it has announced a change and asked for a reload.
pub record Inbox : Type 0 where
  pub read_state : NotificationReadState
  pub page : ℕ
  pub is_marking_all_read : Bool
  pub is_marking_bulk : Bool
  pub marking_id : Option String
  pub action_error : Option String
  pub selected_ids : List String
  pub toaster : Toaster
  pub announced : ℕ
  pub reloads : ℕ

abbrev pub unread_ids : List Notification → List String
unread_ids items = map (λ item. item.id) (filter (λ item. not item.is_read) items)

abbrev is_empty : List String → Bool
is_empty [] = true
is_empty (id ∷ ids) = false

abbrev pub all_visible_unread_selected : List Notification → List String → Bool
all_visible_unread_selected items selected =
    not (is_empty (unread_ids items)) && all (λ id. has id selected) (unread_ids items)

unfoldable pub toggle_selection : String → Inbox → Inbox
unfolding has add delete
toggle_selection id inbox = record inbox {
  selected_ids =
      if has id inbox.selected_ids then delete id inbox.selected_ids else add id inbox.selected_ids;
}

unfoldable pub toggle_visible_unread : List Notification → Inbox → Inbox
unfolding has add_all delete_all
toggle_visible_unread items inbox = record inbox {
  selected_ids =
      if all_visible_unread_selected items inbox.selected_ids
      then delete_all (unread_ids items) inbox.selected_ids
      else add_all (unread_ids items) inbox.selected_ids;
}

-- `refreshAfterMutation`; `page` is that of the render that the action began in.
unfoldable pub refresh_after_mutation : ℕ → Option ℕ → Inbox → Inbox
refresh_after_mutation page none inbox = record inbox {
  selected_ids = [];
  announced = suc inbox.announced;
  reloads = suc inbox.reloads;
}
refresh_after_mutation page (some next_page) inbox =
    let refreshed = record inbox { selected_ids = []; announced = suc inbox.announced } in
    if eqb next_page page
    then record refreshed { reloads = suc inbox.reloads }
    else record refreshed { page = next_page }

abbrev pub raise : String → Option String → ToastTone → Inbox → Inbox
raise title description tone inbox = record inbox {
  toaster =
      notify
        (record { title = title; description = description; duration = none; tone = some tone })
        inbox.toaster;
}

-- The `catch` of each action: the message, and a toast of it.
unfoldable pub fail : String → Inbox → Inbox
fail message inbox =
    raise "Notification update failed" (some message) Toasts.error
      (record inbox { action_error = some message })

abbrev pub message_of : {A : Type 0} → Loaded A → String
message_of (api_failure message) = message
message_of _ = "Unable to update notifications."

abbrev is_unread_only : NotificationReadState → Bool
is_unread_only unread_only = true
is_unread_only _ = false

-- The page before, where the last items of an unread page have gone.
abbrev pub page_before : Bool → Inbox → Option ℕ
page_before emptied inbox =
    if is_unread_only inbox.read_state && emptied && ltb 1 inbox.page
    then some (inbox.page - 1)
    else none

-- `markRead`, `markSelectedRead` and `markAllRead`, up to their call and from its end. The items are
-- those of the render that the action began in, and `seen` is its state.
unfoldable pub begin_mark_read : String → Inbox → Inbox
begin_mark_read id inbox = record inbox { marking_id = some id; action_error = none }

unfoldable pub end_mark_read : Inbox → List Notification → Loaded Unit → Inbox → Inbox
unfolding refresh_after_mutation fail
end_mark_read seen items (content done) inbox =
    let raised = raise "Notification marked as read" none success inbox in
    record (refresh_after_mutation seen.page (page_before (eqb (length items) 1) seen) raised) {
      marking_id = none;
    }
end_mark_read seen items failure inbox = record (fail (message_of failure) inbox) {
  marking_id = none;
}

unfoldable pub begin_mark_selected : Inbox → Inbox
begin_mark_selected inbox =
    if is_empty inbox.selected_ids
    then inbox
    else record inbox { is_marking_bulk = true; action_error = none }

-- The title tells how many were updated.
unfoldable pub end_mark_selected : Inbox → List Notification → Loaded String → Inbox → Inbox
unfolding refresh_after_mutation fail
end_mark_selected seen items (content updated) inbox =
    let raised =
      raise (updated <> " notifications marked as read")
        (some "Selected notifications are now cleared from the unread queue.") success inbox in
    record (refresh_after_mutation seen.page
      (page_before (leb (length items) (length seen.selected_ids)) seen) raised) {
        is_marking_bulk = false;
      }
end_mark_selected seen items failure inbox = record (fail (message_of failure) inbox) {
  is_marking_bulk = false;
}

unfoldable pub begin_mark_all : Inbox → Inbox
begin_mark_all inbox = record inbox { is_marking_all_read = true; action_error = none }

unfoldable pub end_mark_all : Inbox → Loaded Unit → Inbox → Inbox
unfolding refresh_after_mutation fail
end_mark_all seen (content done) inbox =
    let raised =
      raise "Inbox cleared" (some "Your inbox has no unread notifications remaining.") success
        inbox in
    record (refresh_after_mutation seen.page (some 1) raised) { is_marking_all_read = false }
end_mark_all seen failure inbox = record (fail (message_of failure) inbox) {
  is_marking_all_read = false;
}
