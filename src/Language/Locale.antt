-- ===== src/Language/Locale.antt =====
-- frontend/src/components/i18n/i18n-provider.tsx: the reader's language, and where it is kept.
use enterprise_crm.Common.{String, Bool, true, Option, none, some, ◌==◌, if◌then◌else◌}
use enterprise_crm.Common.Storage.{Storage, Read, refused, found, get_item, set_item}
use enterprise_crm.Language.{AppLocale, english, persian, is_persian}

pub data AppDirection : Type 0 where
  ltr rtl : AppDirection

-- The attributes `lang`, `dir` and `data-locale` of the page's root.
pub record Root : Type 0 where
  pub lang : AppLocale
  pub dir : AppDirection
  pub locale : AppLocale

-- The provider's state, its document and the storage, which outlives both.
pub record Provider : Type 0 where
  pub locale : AppLocale
  pub root : Root
  pub storage : Storage

abbrev pub locale_text : AppLocale → String
locale_text english = "en"
locale_text persian = "fa"

abbrev pub direction : AppLocale → AppDirection
direction locale = if is_persian locale then rtl else ltr

-- `applyLocaleToDocument`
unfoldable pub root_of : AppLocale → Root
root_of next_locale = record {
  lang = next_locale;
  dir = if is_persian next_locale then rtl else ltr;
  locale = next_locale;
}

abbrev pub locale_of : Option String → AppLocale
locale_of none = english
locale_of (some stored) = if stored == "fa" then persian else english

-- `localeBootstrapScript`: it runs before the page is drawn, and leaves the root where reads throw.
unfoldable pub bootstrap : Storage → Root → Root
unfolding get_item root_of
bootstrap storage root = elim (get_item storage) [
  | refused ↦ root
  | found stored ↦ root_of (locale_of stored)
]

-- The provider as the server and the first render of the client have it.
abbrev pub first_render : Storage → Root → Provider
first_render storage root = record { locale = english; root = root; storage = storage }

abbrev pub stored_of : Read → Option String
stored_of refused = none
stored_of (found stored) = stored

-- `restoreSavedLocale`, which the effect runs; `active` is its flag when it goes on.
unfoldable pub restore_saved_locale : Bool → Provider → Provider
unfolding get_item root_of
restore_saved_locale active provider =
    let restored = locale_of (stored_of (get_item provider.storage)) in
    if active
    then record provider {
      root = root_of restored;
      locale = if is_persian restored then restored else provider.locale;
    }
    else provider

unfoldable pub set_locale : AppLocale → Provider → Provider
unfolding root_of set_item
set_locale next_locale provider = record {
  locale = next_locale;
  root = root_of next_locale;
  storage = set_item (locale_text next_locale) provider.storage;
}

unfoldable pub toggle_locale : Provider → Provider
unfolding set_locale
toggle_locale provider =
    set_locale (if is_persian provider.locale then english else persian) provider

-- A new visit: the script, the first render and the effect.
unfoldable pub visit : Storage → Root → Provider
unfolding bootstrap restore_saved_locale
visit storage root = restore_saved_locale true (first_render storage (bootstrap storage root))
