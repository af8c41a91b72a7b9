-- ===== src/Settings/Toggled.antt =====
-- frontend/src/features/settings: which permissions a role is sent with, and which form stays open.
use enterprise_crm.Common.{
  ◌≡◌, refl, ap, String, Bool, true, false, not, ◌||◌, ◌&&◌, none, some, List, [], ◌∷◌, ◌++◌, ◌==◌,
  if◌then◌else◌, eq_iff, filter, arith,
}
use enterprise_crm.Common.Text.{trim}
use enterprise_crm.Hooks.{content}
use enterprise_crm.Settings.{
  includes_id, toggle, Role, RoleInput, open_role, toggle_permission, submit_role, Managed, edit,
  begin_save, end_update,
}

includes_id-snoc :
    (id other : String) (ids : List String)
    → includes_id id (ids ++ other ∷ []) ≡ (includes_id id ids || other == id)
unfolding includes_id
includes_id-snoc id other [] = ground arith
includes_id-snoc id other (first ∷ ids) = ground (arith, includes_id-snoc id other ids)

includes_id-filter :
    (id other : String) (ids : List String)
    → includes_id id (filter (λ kept. not (kept == other)) ids)
      ≡ (not (other == id) && includes_id id ids)
unfolding includes_id filter
includes_id-filter id other [] = ground arith
includes_id-filter id other (first ∷ ids) =
    ground
      (arith, includes_id-filter id other ids, eq_iff first id, eq_iff first other, eq_iff other id)

includes_id-toggle :
    (id other : String) (ids : List String)
    → includes_id id (toggle other ids)
      ≡ (if other == id then not (includes_id id ids) else includes_id id ids)
unfolding toggle
includes_id-toggle id other ids =
    ground (arith, includes_id-snoc id other ids, includes_id-filter id other ids, eq_iff other id)

-- Each id stands in the list once.
unfoldable pub is_unique : List String → Bool
unfolding includes_id
is_unique [] = true
is_unique (id ∷ ids) = not (includes_id id ids) && is_unique ids

is_unique-snoc :
    (id : String) (ids : List String)
    → is_unique (ids ++ id ∷ []) ≡ (is_unique ids && not (includes_id id ids))
unfolding is_unique includes_id
is_unique-snoc id [] = ground arith
is_unique-snoc id (first ∷ ids) =
    ground (
      arith,
      is_unique-snoc id ids,
      includes_id-snoc first id ids,
      eq_iff first id,
      eq_iff id first,
    )

is_unique-filter :
    (other : String) (ids : List String)
    → is_unique ids ≡ true
    → is_unique (filter (λ kept. not (kept == other)) ids) ≡ true
unfolding is_unique filter
is_unique-filter other [] h = refl
is_unique-filter other (first ∷ ids) h =
    ground (arith, is_unique-filter other ids, includes_id-filter first other ids)

is_unique-toggle :
    (id : String) (ids : List String) → is_unique ids ≡ true → is_unique (toggle id ids) ≡ true
unfolding toggle
is_unique-toggle id ids h = ground (arith, is_unique-snoc id ids, is_unique-filter id ids)

-- The boxes that are clicked, one after the other.
pub toggle_all : List String → RoleInput → RoleInput
toggle_all [] fields = fields
toggle_all (id ∷ clicks) fields = toggle_all clicks (toggle_permission id fields)

-- Whether the box of `id` is clicked an odd number of times.
pub is_odd : String → List String → Bool
is_odd id [] = false
is_odd id (click ∷ clicks) = if click == id then not (is_odd id clicks) else is_odd id clicks

includes_id-toggle_all :
    (id : String) (clicks : List String) (fields : RoleInput)
    → includes_id id (toggle_all clicks fields).permission_ids ≡ (
        if is_odd id clicks
        then not (includes_id id fields.permission_ids)
        else includes_id id fields.permission_ids)
unfolding toggle_all is_odd toggle_permission
includes_id-toggle_all id [] fields = refl
includes_id-toggle_all id (click ∷ clicks) fields = ground (
  arith,
  includes_id-toggle_all id clicks (toggle_permission click fields),
  includes_id-toggle id click fields.permission_ids,
)

is_unique-toggle_all :
    (clicks : List String) (fields : RoleInput)
    → is_unique fields.permission_ids ≡ true
    → is_unique (toggle_all clicks fields).permission_ids ≡ true
unfolding toggle_all toggle_permission
is_unique-toggle_all [] fields h = h
is_unique-toggle_all (click ∷ clicks) fields h =
    is_unique-toggle_all clicks (toggle_permission click fields)
      (is_unique-toggle click fields.permission_ids h)

toggle_all-name :
    (clicks : List String) (fields : RoleInput) → (toggle_all clicks fields).name ≡ fields.name
unfolding toggle_all toggle_permission
toggle_all-name [] fields = refl
toggle_all-name (click ∷ clicks) fields = toggle_all-name clicks (toggle_permission click fields)

-- The form of a role, opened on a role whose permissions stand in it once, and submitted after any clicks
-- on the boxes of permissions, sends the role's trimmed name, and a permission exactly if the role had it
-- and its box was clicked an even number of times, or had it not and it was clicked an odd number of
-- times; no permission is sent twice.
pub submit_role-toggled :
    (role : Role) (clicks : List String) (id : String)
    → is_unique (open_role (some role)).permission_ids ≡ true
    → ((submit_role (toggle_all clicks (open_role (some role)))).name ≡ trim role.name)
      × (includes_id id (submit_role (toggle_all clicks (open_role (some role)))).permission_ids ≡ (
          if is_odd id clicks
          then not (includes_id id (open_role (some role)).permission_ids)
          else includes_id id (open_role (some role)).permission_ids))
      × (is_unique (submit_role (toggle_all clicks (open_role (some role)))).permission_ids ≡ true)
unfolding submit_role open_role
submit_role-toggled role clicks id once = (
  ap trim (toggle_all-name clicks (open_role (some role))),
  includes_id-toggle_all id clicks (open_role (some role)),
  is_unique-toggle_all clicks (open_role (some role)) once,
)

-- A reader who opens a second record while an update of the first runs loses the second form when the
-- update succeeds.
pub end_update-late :
    {A : Type 0} (fallback : String) (second : A) (state : Managed A)
    → ((edit second (begin_save state)).editing ≡ some second)
      × ((end_update fallback (content tt) (edit second (begin_save state))).editing ≡ none)
unfolding end_update begin_save edit
end_update-late fallback second state = (refl, refl)
