-- ===== src/Navigation/Access.antt =====
-- frontend/src/components/layout/sidebar.tsx and frontend/src/components/command/command-palette.tsx:
-- which pages the two offer to a reader.
use enterprise_crm.Common.{
  String, Bool, false, ◌==◌, Option, none, some, List, [], ◌∷◌, if◌then◌else◌,
}
use enterprise_crm.Navigation.{NavigationItem, navigation_items, can_access}
use enterprise_crm.Palette.{StaticCommand, commands, has_access}

find_item : String → List NavigationItem → Option NavigationItem
find_item href [] = none
find_item href (item ∷ items) = if item.href == href then some item else find_item href items

find_command : String → List StaticCommand → Option StaticCommand
find_command href [] = none
find_command href (command ∷ commands) =
    if command.href == href then some command else find_command href commands

-- Whether the sidebar and the palette offer the page of a path.
unfoldable pub in_sidebar : String → List String → Bool
unfolding find_item
in_sidebar href names = elim (find_item href navigation_items) [
  | none ↦ false
  | some item ↦ can_access item names
]

unfoldable pub in_palette : String → List String → Bool
unfolding find_command
in_palette href names = elim (find_command href commands) [
  | none ↦ false
  | some command ↦ has_access command names
]

-- The pages that both offer.
abbrev pub shared_pages : List String
shared_pages =
    "/dashboard" ∷ "/dashboard/planner" ∷ "/dashboard/companies" ∷ "/dashboard/contacts"
    ∷ "/dashboard/leads" ∷ "/dashboard/deals/board" ∷ "/dashboard/deals" ∷ "/dashboard/tasks"
    ∷ "/dashboard/activities" ∷ "/dashboard/notes" ∷ "/dashboard/notifications" ∷ []
