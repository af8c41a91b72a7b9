-- ===== src/Language/Filled.antt =====
-- frontend/src/components/i18n/i18n-provider.tsx: what `interpolate` replaces.
use Prim.Native.Char.{code}
use text.Mathlib.TextLemmas.{nil-append, append-nil, cons-append}
use enterprise_crm.Common.{
  ◌≡◌, refl, ap, sym, ◌∙◌, String, true, false, none, some, ◌∷◌, ◌<>◌, ◌==◌, eqb,
}
use enterprise_crm.Common.Entries.{get}
use enterprise_crm.Language.{
  TranslationValue, value_text, TranslationValues, is_word, hole, scan, fill, fill_all, interpolate,
}
use enterprise_crm.Language.Kept.{cons_single, key_text}

abbrev pub IsBraceless : String → Type 0
IsBraceless String.[] = Unit
IsBraceless (String.◌∷◌ c text) = (eqb (code c) b'{' ≡ false) × IsBraceless text

-- A placeholder's name: letters, digits and `_`.
abbrev pub IsName : String → Type 0
IsName String.[] = Unit
IsName (String.◌∷◌ c text) = (is_word (code c) ≡ true) × IsName text

fill_all-braceless :
    (values : TranslationValues) (before rest : String)
    → IsBraceless before
    → fill_all values (scan none (before <> rest)) ≡ before <> fill_all values (scan none rest)
unfolding fill_all fill scan
fill_all-braceless values String.[] rest h = rw (nil-append rest, nil-append) refl
fill_all-braceless values (String.◌∷◌ c before) rest h =
    rw (cons-append, h.0, scan, fill_all-braceless values before rest h.1)
      (cons_single c _ ∙ sym (cons-append c before _))

scan-name :
    (key name rest : String)
    → IsName name
    → (key <> name == "") ≡ false
    → scan (some key) (name <> String.◌∷◌ "}" rest) ≡ hole (key <> name) ∷ scan none rest
unfolding scan is_word
scan-name key String.[] rest h named =
    let kept : (key == "") ≡ false = rw append-nil at named in
    rw (nil-append, append-nil, kept) refl
scan-name key (String.◌∷◌ c name) rest h named =
    let kept : ((key <> String.◌∷◌ c String.[]) <> name == "") ≡ false = rw key_text named in
    rw
      (
        cons-append,
        h.0,
        scan,
        scan-name (key <> String.◌∷◌ c String.[]) name rest h.1 kept,
        key_text,
      )
      refl

fill-hole :
    (key : String) (values : TranslationValues) (value : TranslationValue)
    → get key values ≡ some value
    → fill values (hole key) ≡ value_text value
unfolding fill
fill-hole key values value found = rw (found, fill) refl

fill-name :
    (key rest : String) (values : TranslationValues) (value : TranslationValue)
    → IsName key
    → (key == "") ≡ false
    → get key values ≡ some value
    → fill_all values (scan (some "") (key <> String.◌∷◌ "}" rest))
      ≡ value_text value <> fill_all values (scan none rest)
unfolding fill_all fill
fill-name key rest values value k named found =
    rw (scan-name "" key rest k (rw nil-append named), nil-append, fill-hole key values value found)
      refl

-- The first placeholder of a text, if it has a value, is replaced by this value's text, whatever
-- stands before it without a brace, and the rest of the text is filled in by itself.
pub interpolate-hole :
    (before key rest : String) (values : TranslationValues) (value : TranslationValue)
    → IsBraceless before
    → IsName key
    → (key == "") ≡ false
    → get key values ≡ some value
    → interpolate (before <> String.◌∷◌ "{" (key <> String.◌∷◌ "}" rest)) (some values)
      ≡ before <> (value_text value <> interpolate rest (some values))
unfolding interpolate scan
interpolate-hole before key rest values value b k named found =
    rw (fill_all-braceless values before _ b)
      (ap (λ s. before <> s) (fill-name key rest values value k named found))
