-- ===== src/Notifications/Selection.antt =====
-- frontend/src/features/notifications/notifications-workspace.tsx: which notifications are selected.
use enterprise_crm.Common.{
  ◌≡◌, refl, inl, inr, String, not, ◌&&◌, ◌||◌, List, [], ◌∷◌, ◌++◌, ◌==◌, eq_iff, if◌then◌else◌,
  arith, Bool-cases,
}
use enterprise_crm.Notifications.{
  Notification, Inbox, has, add, delete, add_all, delete_all, unread_ids,
  all_visible_unread_selected, toggle_selection, toggle_visible_unread,
}

has-snoc : (id j : String) (ids : List String) → has j (ids ++ id ∷ []) ≡ (has j ids || id == j)
unfolding has
has-snoc id j [] = ground arith
has-snoc id j (k ∷ ids) = ground (arith, has-snoc id j ids)

has-add : (id j : String) (ids : List String) → has j (add id ids) ≡ (id == j || has j ids)
unfolding add
has-add id j ids = ground (arith, has-snoc id j ids, eq_iff id j)

has-delete :
    (id j : String) (ids : List String) → has j (delete id ids) ≡ (not (id == j) && has j ids)
unfolding has delete
has-delete id j [] = ground arith
has-delete id j (k ∷ ids) =
    ground (arith, has-delete id j ids, eq_iff id j, eq_iff k id, eq_iff k j)

has-add_all :
    (j : String) (more ids : List String) → has j (add_all more ids) ≡ (has j more || has j ids)
unfolding add_all has
has-add_all j [] ids = refl
has-add_all j (id ∷ more) ids = ground (arith, has-add_all j more (add id ids), has-add id j ids)

has-delete_all :
    (j : String) (more ids : List String)
    → has j (delete_all more ids) ≡ (not (has j more) && has j ids)
unfolding delete_all has
has-delete_all j [] ids = refl
has-delete_all j (id ∷ more) ids =
    ground (arith, has-delete_all j more (delete id ids), has-delete id j ids)

-- A click on a notification's box selects it if it was not selected, and else deselects it, and
-- leaves the others as they are. A click on the box of all visible unread ones selects these, unless
-- all of them were selected, which it then undoes; it too leaves the others as they are.
pub toggles-has :
    (id j : String) (items : List Notification) (inbox : Inbox)
    → (has j (toggle_selection id inbox).selected_ids
        ≡ (if id == j then not (has j inbox.selected_ids) else has j inbox.selected_ids))
      × (has j (toggle_visible_unread items inbox).selected_ids ≡ (
          if has j (unread_ids items)
          then not (all_visible_unread_selected items inbox.selected_ids)
          else has j inbox.selected_ids))
unfolding toggle_selection toggle_visible_unread
toggles-has id j items inbox = (
  ground (arith, has-add id j inbox.selected_ids, has-delete id j inbox.selected_ids, eq_iff id j),
  elim (Bool-cases (all_visible_unread_selected items inbox.selected_ids)) [
    | inl every ↦ rw (every, has-delete_all) (ground arith)
    | inr some_left ↦ rw (some_left, has-add_all) (ground arith)
  ],
)
