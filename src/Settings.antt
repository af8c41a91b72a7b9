-- ===== src/Settings.antt =====
-- frontend/src/features/settings: role-form.tsx, user-form.tsx, profile-settings.tsx, and the state of
-- roles-settings.tsx and users-settings.tsx, which is the same.
pub mod Toggled
use enterprise_crm.Common.{
  ℕ, suc, String, Bool, true, false, not, ◌||◌, Option, none, some, List, [], ◌∷◌, ◌++◌, ◌==◌,
  if◌then◌else◌, filter, map, or_else,
}
use enterprise_crm.Common.Text.{trim}
use enterprise_crm.Hooks.{Loaded, content, api_failure, other_failure, get_error_message}

-- `ids.includes(id)`
unfoldable pub includes_id : String → List String → Bool
includes_id id [] = false
includes_id id (other ∷ ids) = other == id || includes_id id ids

unfoldable pub toggle : String → List String → List String
unfolding includes_id filter
toggle id ids =
    if includes_id id ids then filter (λ other. not (other == id)) ids else ids ++ id ∷ []

pub record Named : Type 0 where
  pub id : String
  pub name : String

pub record Role : Type 0 where
  pub id : String
  pub name : String
  pub permissions : List Named

pub record RoleInput : Type 0 where
  pub name : String
  pub permission_ids : List String

-- The form of a role, on the role that it is opened with; its fields are its values.
unfoldable pub open_role : Option Role → RoleInput
open_role none = record { name = ""; permission_ids = [] }
open_role (some role) = record {
  name = role.name;
  permission_ids = map (λ permission. permission.id) role.permissions;
}

unfoldable pub toggle_permission : String → RoleInput → RoleInput
unfolding toggle
toggle_permission permission_id fields = record fields {
  permission_ids = toggle permission_id fields.permission_ids;
}

unfoldable pub submit_role : RoleInput → RoleInput
unfolding trim
submit_role fields = record { name = trim fields.name; permission_ids = fields.permission_ids }

pub record ManagedUser : Type 0 where
  pub id : String
  pub email : String
  pub first_name : String
  pub last_name : String
  pub is_active : Bool
  pub roles : List Named

pub record UserFields : Type 0 where
  pub email : String
  pub first_name : String
  pub last_name : String
  pub password : String
  pub is_active : Bool
  pub role_ids : List String

-- What the form of a user sends in its two modes: the fields that `create` and `update` take.
pub data UserValues : Type 0 where
  create_values : (email first_name last_name password : String) → List String → UserValues
  update_values : (email first_name last_name : String) → Bool → List String → UserValues

unfoldable pub open_user : Option ManagedUser → UserFields
open_user none = record {
  email = "";
  first_name = "";
  last_name = "";
  password = "";
  is_active = true;
  role_ids = [];
}
open_user (some user) = record {
  email = user.email;
  first_name = user.first_name;
  last_name = user.last_name;
  password = "";
  is_active = user.is_active;
  role_ids = map (λ role. role.id) user.roles;
}

unfoldable pub toggle_role : String → UserFields → UserFields
unfolding toggle
toggle_role role_id fields = record fields { role_ids = toggle role_id fields.role_ids }

unfoldable pub submit_user : (is_create : Bool) → UserFields → UserValues
unfolding trim
submit_user is_create fields =
    if is_create
    then create_values (trim fields.email) (trim fields.first_name) (trim fields.last_name)
        fields.password fields.role_ids
    else update_values (trim fields.email) (trim fields.first_name) (trim fields.last_name)
        fields.is_active fields.role_ids

-- The state around the forms; `reloads` counts the reloads of the list.
pub record Managed (A : Type 0) : Type 0 where
  pub is_creating : Bool
  pub editing : Option A
  pub is_saving : Bool
  pub save_error : Option String
  pub reloads : ℕ

module _ {A : Type 0} where
  unfoldable pub toggle_creating : Managed A → Managed A
  toggle_creating state = record state { editing = none; is_creating = not state.is_creating }

  unfoldable pub edit : A → Managed A → Managed A
  edit value state = record state { is_creating = false; save_error = none; editing = some value }

  -- The beginning of a creation, of an update and of a deletion that is confirmed.
  unfoldable pub begin_save : Managed A → Managed A
  begin_save state = record state { is_saving = true; save_error = none }

  unfoldable pub save_failed : String → Loaded Unit → Managed A → Managed A
  unfolding get_error_message
  save_failed fallback failure state = record state {
    save_error = get_error_message fallback failure;
    is_saving = false;
  }

  unfoldable pub end_create : String → Loaded Unit → Managed A → Managed A
  unfolding save_failed
  end_create fallback (content done) state = record state {
    is_creating = false;
    reloads = suc state.reloads;
    is_saving = false;
  }
  end_create fallback failure state = save_failed fallback failure state

  unfoldable pub end_update : String → Loaded Unit → Managed A → Managed A
  unfolding save_failed
  end_update fallback (content done) state = record state {
    editing = none;
    reloads = suc state.reloads;
    is_saving = false;
  }
  end_update fallback failure state = save_failed fallback failure state

-- `deleteRole`: `seen` is the role that was being edited when the deletion began.
unfoldable pub end_delete : (seen : Option Role) → Role → Loaded Unit → Managed Role → Managed Role
unfolding save_failed
end_delete (some edited) role (content done) state = record state {
  editing = if edited.id == role.id then none else state.editing;
  reloads = suc state.reloads;
  is_saving = false;
}
end_delete none role (content done) state = record state {
  reloads = suc state.reloads;
  is_saving = false;
}
end_delete seen role failure state = save_failed "Unable to manage roles." failure state

-- The change of the password.
pub record Passwords : Type 0 where
  pub current_password : String
  pub new_password : String
  pub confirm_password : String
  pub is_saving_password : Bool
  pub password_message : Option String

-- `updatePassword` up to its call, which it makes if the two texts are the same.
unfoldable pub begin_password : Passwords → Passwords
begin_password state =
    if state.new_password == state.confirm_password
    then record state { password_message = none; is_saving_password = true }
    else record state { password_message = some "The new password confirmation does not match." }

unfoldable pub end_password : Loaded Unit → Passwords → Passwords
unfolding get_error_message
end_password (content done) state = record {
  current_password = "";
  new_password = "";
  confirm_password = "";
  password_message = some "Password changed successfully.";
  is_saving_password = false;
}
end_password failure state = record state {
  password_message = get_error_message "Unable to save your profile." failure;
  is_saving_password = false;
}
