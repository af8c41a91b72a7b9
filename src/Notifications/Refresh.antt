-- ===== src/Notifications/Refresh.antt =====
-- frontend/src/features/notifications/notifications-workspace.tsx: what an action leaves behind.
use enterprise_crm.Common.{
  ◌≡◌, refl, subst, ℕ, suc, ◌-◌, ◌≤◌, ◌<>◌, String, Bool, true, false, not, ◌&&◌, Option, none,
  some, List, [], eqb, leb, or_else, if◌then◌else◌, length, arith,
}
use enterprise_crm.Hooks.{Loaded, content, api_failure, other_failure}
use enterprise_crm.Toasts.{success}
use enterprise_crm.Notifications.{
  NotificationReadState, either, unread_only, read_only, Notification, Inbox, page_before,
  refresh_after_mutation, fail, raise, end_mark_read, end_mark_selected, end_mark_all,
}

-- Whether the list is loaded again: a reload is asked for, or the page changes.
abbrev pub is_refreshed : Inbox → Inbox → Bool
is_refreshed before after = not (eqb after.reloads before.reloads && eqb after.page before.page)

-- After a success the list is loaded again, from the page that is left, nothing is selected, and the
-- bell has been told.
abbrev Done : ℕ → Inbox → Inbox → Type 0
Done page_left before after =
    (is_refreshed before after ≡ true)
    × (after.selected_ids ≡ [])
    × (after.page ≡ page_left)
    × (after.announced ≡ suc before.announced)

-- After a failure its message is shown, and nothing else has changed but the toasts.
abbrev Failed : String → Inbox → Inbox → Type 0
Failed message before after =
    (after.action_error ≡ some message)
    × (after.selected_ids ≡ before.selected_ids)
    × (after.page ≡ before.page)
    × (after.reloads ≡ before.reloads)
    × (after.announced ≡ before.announced)

abbrev pub Ends : {A : Type 0} → ℕ → Loaded A → Inbox → Inbox → Type 0
Ends page_left (content done) before after = Done page_left before after
Ends page_left (api_failure message) before after = Failed message before after
Ends page_left other_failure before after = Failed "Unable to update notifications." before after

-- The page that is left when so many of the items on a page have been read: among the unread ones a
-- page that loses all its items is gone, and the one before is the last; the first page stays.
abbrev pub page_left : NotificationReadState → (page shown read : ℕ) → ℕ
page_left unread_only page shown read = if leb shown read && leb 2 page then page - 1 else page
page_left either page shown read = page
page_left read_only page shown read = page

refresh-Done :
    (page : ℕ) (next_page : Option ℕ) (inbox : Inbox)
    → inbox.page ≡ page
    → Done (or_else next_page page) inbox (refresh_after_mutation page next_page inbox)
unfolding refresh_after_mutation
refresh-Done page none inbox same = ground arith
refresh-Done page (some next_page) inbox same = ground arith

Done-page :
    {page left : ℕ} (before after : Inbox)
    → page ≡ left
    → Done page before after
    → Done left before after
Done-page before after same done = subst (λ n. Done n before after) same done

page_before-left :
    (emptied : Bool) (seen : Inbox) (shown read : ℕ)
    → emptied ≡ leb shown read
    → or_else (page_before emptied seen) seen.page ≡ page_left seen.read_state seen.page shown read
page_before-left emptied seen shown read same = ground arith

module _ (seen inbox : Inbox) (items : List Notification) (same : inbox.page ≡ seen.page) where
  end_mark_read-Ends :
      (one : Loaded Unit)
      → 1 ≤ length items
      → Ends
          (page_left seen.read_state seen.page (length items) 1)
          one
          inbox
          (end_mark_read seen items one inbox)
  unfolding end_mark_read fail
  end_mark_read-Ends (content done) shown =
      let raised = raise "Notification marked as read" none success inbox in
      let next_page = page_before (eqb (length items) 1) seen in
      Done-page inbox
        (record (refresh_after_mutation seen.page next_page raised) { marking_id = none })
        (page_before-left (eqb (length items) 1) seen (length items) 1 (ground arith))
        (refresh-Done seen.page next_page raised same)
  end_mark_read-Ends (api_failure message) shown = (refl, refl, refl, refl, refl)
  end_mark_read-Ends other_failure shown = (refl, refl, refl, refl, refl)

  end_mark_selected-Ends :
      (selected : Loaded String)
      → Ends
          (page_left seen.read_state seen.page (length items) (length seen.selected_ids))
          selected
          inbox
          (end_mark_selected seen items selected inbox)
  unfolding end_mark_selected fail
  end_mark_selected-Ends (content updated) =
      let raised =
        raise (updated <> " notifications marked as read")
          (some "Selected notifications are now cleared from the unread queue.") success inbox in
      let all_gone = leb (length items) (length seen.selected_ids) in
      let next_page = page_before all_gone seen in
      Done-page inbox
        (record (refresh_after_mutation seen.page next_page raised) { is_marking_bulk = false })
        (page_before-left all_gone seen (length items) (length seen.selected_ids) refl)
        (refresh-Done seen.page next_page raised same)
  end_mark_selected-Ends (api_failure message) = (refl, refl, refl, refl, refl)
  end_mark_selected-Ends other_failure = (refl, refl, refl, refl, refl)

  end_mark_all-Ends : (every : Loaded Unit) → Ends 1 every inbox (end_mark_all seen every inbox)
  unfolding end_mark_all fail
  end_mark_all-Ends (content done) =
      refresh-Done seen.page (some 1)
        (raise "Inbox cleared" (some "Your inbox has no unread notifications remaining.") success
          inbox)
        same
  end_mark_all-Ends (api_failure message) = (refl, refl, refl, refl, refl)
  end_mark_all-Ends other_failure = (refl, refl, refl, refl, refl)

-- Each of the three actions, begun on a page that the reader has not left meanwhile: if its call
-- succeeds, the list is loaded again, nothing stays selected, and the change is announced once; if it
-- fails, its message is shown and the list, the page and the selection stay. The list is loaded from the
-- first page when all are marked, and else from the same page, but from the one before where only unread
-- ones are shown, the page is not the first, and all that it shows are marked, of which there is one at
-- least for the mark of a single one.
pub actions-End :
    (seen inbox : Inbox) (items : List Notification) (one : Loaded Unit) (selected : Loaded String)
    (every : Loaded Unit)
    → inbox.page ≡ seen.page
    → 1 ≤ length items
    → Ends
        (page_left seen.read_state seen.page (length items) 1)
        one
        inbox
        (end_mark_read seen items one inbox)
      × Ends
          (page_left seen.read_state seen.page (length items) (length seen.selected_ids))
          selected
          inbox
          (end_mark_selected seen items selected inbox)
      × Ends 1 every inbox (end_mark_all seen every inbox)
actions-End seen inbox items one selected every same shown = (
  end_mark_read-Ends seen inbox items same one shown,
  end_mark_selected-Ends seen inbox items same selected,
  end_mark_all-Ends seen inbox items same every,
)

-- If the reader turns to the first page while all notifications are being marked, begun on another
-- page, then the list is not loaded again when this is done; in every other case it is.
pub end_mark_all-refreshed :
    (seen inbox : Inbox)
    → is_refreshed inbox (end_mark_all seen (content tt) inbox)
      ≡ not (eqb inbox.page 1 && not (eqb seen.page 1))
unfolding end_mark_all refresh_after_mutation
end_mark_all-refreshed seen inbox = ground arith
