-- ===== src/Theme/Choice.antt =====
-- frontend/src/components/theme/theme-provider.tsx: when the theme that is chosen is the one shown.
use enterprise_crm.Common.{
  ◌≡◌, refl, ap, inl, inr, ◌↔◌, Bool, true, false, Option, none, some, if◌then◌else◌, or_else,
  Bool-cases, arith,
}
use enterprise_crm.Common.Storage.{Storage, get_item, set_item}
use enterprise_crm.Theme.{
  Theme, dark, light, theme_text, Window, stored_theme, get_stored_theme, apply_theme, set_theme,
}

-- The storage keeps a theme that it will not let go of: it is read, but not written.
abbrev pub IsStuck : Theme → Storage → Type 0
IsStuck other storage =
    (storage.reads ≡ true) × (storage.writes ≡ false) × (stored_theme storage.item ≡ some other)

stored_theme_text : (theme : Theme) → stored_theme (some (theme_text theme)) ≡ some theme
stored_theme_text dark = refl
stored_theme_text light = refl

-- The theme that the provider gives once `theme` has been set.
abbrev given_after : Theme → Storage → Theme
given_after theme storage =
    if storage.reads
    then if storage.writes then theme else or_else (stored_theme storage.item) theme
    else theme

get_stored_theme-set_theme :
    (theme : Theme) (window : Window)
    → get_stored_theme (set_theme theme window) ≡ given_after theme window.storage
unfolding get_stored_theme set_theme get_item set_item apply_theme
get_stored_theme-set_theme theme window = elim (Bool-cases window.storage.reads) [
  | inl reads ↦ elim (Bool-cases window.storage.writes) [
    | inl writes ↦
        rw (reads, writes) (ap (λ (o : Option Theme). or_else o theme) (stored_theme_text theme))
    | inr fails ↦ rw (reads, fails) refl
  ]
  | inr refuses ↦ elim (Bool-cases window.storage.writes) [
    | inl writes ↦ rw (refuses, writes) refl
    | inr fails ↦ rw (refuses, fails) refl
  ]
]

given-free :
    (theme : Theme) (reads writes : Bool) (stored : Option Theme)
    → ((other : Theme) → (reads ≡ true) × (writes ≡ false) × (stored ≡ some other) → other ≡ theme)
    → (if reads then if writes then theme else or_else stored theme else theme) ≡ theme
given-free theme false writes stored free = refl
given-free theme true true stored free = refl
given-free theme true false none free = refl
given-free theme true false (some other) free = free other (refl, refl, refl)

-- A chosen theme is applied to the page at once, whatever the storage does. It is the one that the
-- provider gives from then on exactly if the storage is not stuck at another theme, that is, read but
-- not written. Where it is stuck, the choice comes undone when the provider is asked next.
pub set_theme-given_iff :
    (theme : Theme) (window : Window)
    → ((set_theme theme window).applied ≡ theme)
      × ((get_stored_theme (set_theme theme window) ≡ theme)
          ↔ ((other : Theme) → IsStuck other window.storage → other ≡ theme))
unfolding set_theme apply_theme
set_theme-given_iff theme window =
    (refl, rw get_stored_theme-set_theme (λ kept other stuck. ground arith, given-free theme _ _ _))
