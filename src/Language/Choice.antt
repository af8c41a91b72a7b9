-- ===== src/Language/Choice.antt =====
-- frontend/src/components/i18n/i18n-provider.tsx: the language that a reader chose comes back.
use enterprise_crm.Common.{◌≡◌, refl, sym, ap, inl, inr, if◌then◌else◌, Bool-cases, true}
use enterprise_crm.Common.Storage.{Storage, get_item, set_item}
use enterprise_crm.Language.{AppLocale, english, persian, is_persian}
use enterprise_crm.Language.Locale.{
  Provider, Root, locale_text, root_of, visit, bootstrap, restore_saved_locale, set_locale,
}

-- The root says what the provider's locale is.
abbrev pub IsShown : Provider → Type 0
IsShown provider = provider.root ≡ root_of provider.locale

restored_kept : (locale : AppLocale) → (if is_persian locale then locale else english) ≡ locale
restored_kept english = refl
restored_kept persian = refl

-- Whatever is stored, a visit ends with a root that shows the locale of the provider. Where the
-- storage can be read, this is the root that the script has drawn, so that nothing changes under the
-- reader's eyes, and else it is the English one.
pub visit-IsShown :
    (storage : Storage) (root : Root)
    → IsShown (visit storage root)
      × ((visit storage root).root
          ≡ (if storage.reads then bootstrap storage root else root_of english))
unfolding visit bootstrap restore_saved_locale get_item
visit-IsShown storage root = (
  ap root_of (sym (restored_kept _)),
  elim (Bool-cases storage.reads) [
    | inl reads ↦ rw (reads, get_item) refl
    | inr fails ↦ rw (fails, get_item) refl
  ],
)

visit-set_item :
    (next_locale : AppLocale) (storage : Storage) (root : Root)
    → storage.reads ≡ true
    → storage.writes ≡ true
    → (visit (set_item (locale_text next_locale) storage) root).locale ≡ next_locale
unfolding visit restore_saved_locale bootstrap get_item set_item
visit-set_item english storage root reads writes = rw (writes, set_item, reads, get_item) refl
visit-set_item persian storage root reads writes = rw (writes, set_item, reads, get_item) refl

-- A language that is chosen is shown at once, and, where the storage can be read and written, again
-- on every later visit, whatever was shown and stored before.
pub visit-set_locale :
    (next_locale : AppLocale) (provider : Provider) (root : Root)
    → provider.storage.reads ≡ true
    → provider.storage.writes ≡ true
    → ((set_locale next_locale provider).locale ≡ next_locale)
      × IsShown (set_locale next_locale provider)
      × ((visit (set_locale next_locale provider).storage root).locale ≡ next_locale)
unfolding set_locale
visit-set_locale next_locale provider root reads writes =
    (refl, refl, visit-set_item next_locale provider.storage root reads writes)
