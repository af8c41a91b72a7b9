-- ===== src/Tests/Texts.antt =====
-- The theorems on translated texts, the reader's choices and calendar files.
use enterprise_crm.Common.{◌≡◌, ◌↔◌, refl, true, false, none, some, [], ◌∷◌}
use enterprise_crm.Common.Entries.{get}
use enterprise_crm.Common.Storage.{Storage}
use enterprise_crm.CalendarExport.{escape_ics}
use enterprise_crm.CalendarExport.Escaped.{unescape, HasNoBreak, unescape-escape_ics}
use enterprise_crm.Language.{english, persian, TranslationValues, number, words}
use enterprise_crm.Language.Locale.{Provider, ltr, set_locale, visit, first_render}
use enterprise_crm.Language.Choice.{IsShown, visit-set_locale}
use enterprise_crm.Theme.{Theme, dark, light, Window, get_stored_theme, set_theme}
use enterprise_crm.Theme.Choice.{IsStuck, set_theme-given_iff}

abbrev counts : TranslationValues
counts = ("resource", words "deals") ∷ ("count", number 12) ∷ []

count_found : get "count" counts ≡ some (number 12)
unfolding get
count_found = refl

abbrev open_storage : Storage
open_storage = record { reads = true; writes = true; item = some "en" }

abbrev english_page : Provider
english_page = first_render open_storage (record { lang = english; dir = ltr; locale = english })

visit-set_locale_example :
    ((set_locale persian english_page).locale ≡ persian)
    × IsShown (set_locale persian english_page)
    × ((visit (set_locale persian english_page).storage english_page.root).locale ≡ persian)
visit-set_locale_example = visit-set_locale persian english_page english_page.root refl refl

-- A storage that is full: it is read, but not written.
abbrev full_window : Window
full_window = record {
  storage = record { reads = true; writes = false; item = some "light" };
  in_memory_theme = none;
  prefers_dark = true;
  applied = light;
}

set_theme-given_iff_example :
    ((set_theme dark full_window).applied ≡ dark)
    × ((get_stored_theme (set_theme dark full_window) ≡ dark)
        ↔ ((other : Theme) → IsStuck other full_window.storage → other ≡ dark))
set_theme-given_iff_example = set_theme-given_iff dark full_window

unescape-escape_ics_example :
    (unescape false (escape_ics "a,b;\\c\nd") ≡ some "a,b;\\c\nd")
    × HasNoBreak (escape_ics "a,b;\\c\nd")
unescape-escape_ics_example = unescape-escape_ics "a,b;\\c\nd"
