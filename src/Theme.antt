-- ===== src/Theme.antt =====
-- frontend/src/components/theme/theme-provider.tsx: the theme of the page, and where it is kept.
pub mod Choice
use enterprise_crm.Common.{
  String, Bool, true, false, ◌||◌, Option, none, some, ◌==◌, if◌then◌else◌, or_else,
}
use enterprise_crm.Common.Storage.{Storage, refused, found, get_item, set_item}

pub data Theme : Type 0 where
  dark light : Theme

abbrev pub theme_text : Theme → String
theme_text dark = "dark"
theme_text light = "light"

-- The window: its storage, the module's `inMemoryTheme`, what `matchMedia` says of the system, and
-- the theme that the page's root shows.
pub record Window : Type 0 where
  pub storage : Storage
  pub in_memory_theme : Option Theme
  pub prefers_dark : Bool
  pub applied : Theme

abbrev pub get_system_theme : Window → Theme
get_system_theme window = if window.prefers_dark then dark else light

-- A stored text that names a theme.
abbrev pub theme_of : String → Option Theme
theme_of stored =
    if stored == "dark" then some dark else if stored == "light" then some light else none

abbrev pub stored_theme : Option String → Option Theme
stored_theme none = none
stored_theme (some stored) = theme_of stored

-- The theme that the provider gives: React asks for it when the window says that it has changed.
unfoldable pub get_stored_theme : Window → Theme
unfolding get_item
get_stored_theme window =
    let fallback = or_else window.in_memory_theme (get_system_theme window) in
    elim (get_item window.storage) [
      | refused ↦ fallback
      | found stored ↦ or_else (stored_theme stored) fallback
    ]

unfoldable pub apply_theme : Theme → Window → Window
apply_theme theme window = record window { applied = theme }

unfoldable pub set_theme : Theme → Window → Window
unfolding apply_theme set_item
set_theme next_theme window =
    let shown = apply_theme next_theme (record window { in_memory_theme = some next_theme }) in
    record shown { storage = set_item (theme_text next_theme) shown.storage }

-- The effect of the provider, which runs when the theme that it gives has changed.
unfoldable pub apply_given_theme : Window → Window
unfolding get_stored_theme apply_theme
apply_given_theme window = apply_theme (get_stored_theme window) window

unfoldable pub toggle_theme : Window → Window
unfolding get_stored_theme set_theme
toggle_theme window = elim (get_stored_theme window) [
  | dark ↦ set_theme light window
  | light ↦ set_theme dark window
]

-- `themeBootstrapScript`
unfoldable pub bootstrap : Window → Window
unfolding get_item apply_theme
bootstrap window = elim (get_item window.storage) [
  | refused ↦ window
  | found stored ↦ apply_theme (or_else (stored_theme stored) (get_system_theme window)) window
]
