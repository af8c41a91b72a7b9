-- ===== src/Tests/Settings.antt =====
-- Tests of the form of a role.
use enterprise_crm.Common.{◌≡◌, refl, String, true, not, List, [], ◌∷◌, if◌then◌else◌, some}
use enterprise_crm.Common.Text.{trim}
use enterprise_crm.Settings.{includes_id, Role, open_role, submit_role}
use enterprise_crm.Settings.Toggled.{is_unique, is_odd, toggle_all, submit_role-toggled}

abbrev manager : Role
manager = record {
  id = "r1";
  name = "Manager";
  permissions =
      record { id = "p1"; name = "deals.read" } ∷ record { id = "p2"; name = "deals.update" } ∷ [];
}

abbrev clicked : List String
clicked = "p2" ∷ "p3" ∷ "p2" ∷ "p1" ∷ []

submit_role-toggled_example :
    ((submit_role (toggle_all clicked (open_role (some manager)))).name ≡ trim manager.name)
    × (includes_id "p1" (submit_role (toggle_all clicked (open_role (some manager)))).permission_ids
        ≡ (if is_odd "p1" clicked
            then not (includes_id "p1" (open_role (some manager)).permission_ids)
            else includes_id "p1" (open_role (some manager)).permission_ids))
    × (is_unique (submit_role (toggle_all clicked (open_role (some manager)))).permission_ids
        ≡ true)
unfolding is_unique includes_id open_role
submit_role-toggled_example = submit_role-toggled manager clicked "p1" refl
