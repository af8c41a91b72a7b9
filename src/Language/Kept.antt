-- ===== src/Language/Kept.antt =====
-- frontend/src/components/i18n/i18n-provider.tsx: what `interpolate` leaves as it is.
use Prim.Native.Char.{Char, code}
use text.Mathlib.TextLemmas.{nil-append, append-nil, cons-append, append_assoc}
use text.Mathlib.TextEquality.{Char-path}
use enterprise_crm.Common.{
  ◌≡◌, refl, ap, sym, ◌∙◌, inl, inr, String, true, Option, none, some, List, [], ◌∷◌, ◌<>◌, ◌==◌,
  arith, eqb, if◌then◌else◌, All, Bool-cases, eq_iff,
}
use enterprise_crm.Common.Entries.{get}
use enterprise_crm.Language.{
  TranslationValues, is_word, Piece, plain, hole, scan, fill, fill_all, interpolate,
}

-- The places of a template that a value may fill, by their names.
abbrev pub holes : List Piece → List String
holes [] = []
holes (plain text ∷ pieces) = holes pieces
holes (hole key ∷ pieces) = key ∷ holes pieces

abbrev pub IsUnnamed : TranslationValues → List String → Type 0
IsUnnamed values = All (λ key. get key values ≡ none)

-- The text that has been read into a piece that is not finished, in front of the rest.
abbrev pending : Option String → String → String
pending none rest = rest
pending (some key) rest = "{" <> (key <> rest)

pub cons_single : (c : Char) (text : String) → String.◌∷◌ c String.[] <> text ≡ String.◌∷◌ c text
cons_single c text = simp (cons-append, nil-append)

pub char_eq : (c d : Char) → eqb (code c) (code d) ≡ true → c ≡ d
char_eq c d h = Char-path c d (ground arith)

open_text :
    (c : Char) (text : String) → eqb (code c) b'{' ≡ true → "{" <> ("" <> text) ≡ String.◌∷◌ c text
open_text c text h = rw (char_eq c "{" h, nil-append) (cons_single "{" text)

close_text :
    (c : Char) (key text : String)
    → eqb (code c) b'}' ≡ true
    → ("{" <> (key <> "}")) <> text ≡ "{" <> (key <> String.◌∷◌ c text)
close_text c key text h = rw (char_eq c "}" h) (
    append_assoc "{" _ text
    ∙ ap (λ s. "{" <> s) (append_assoc key _ text ∙ ap (λ s. key <> s) (cons_single "}" text)))

pub key_text :
    (c : Char) (key text : String)
    → (key <> String.◌∷◌ c String.[]) <> text ≡ key <> String.◌∷◌ c text
key_text c key text = append_assoc key _ text ∙ ap (λ s. key <> s) (cons_single c text)

-- The pieces come to the text, where their holes have no value.
abbrev pub Fills : TranslationValues → List Piece → String → Type 0
Fills values pieces text = IsUnnamed values (holes pieces) → fill_all values pieces ≡ text

plain-Fills :
    (values : TranslationValues) (before text : String) (pieces : List Piece)
    → Fills values pieces text
    → Fills values (plain before ∷ pieces) (before <> text)
unfolding fill_all fill
plain-Fills values before text pieces ih = λ h. ap (λ s. before <> s) (ih h)

-- A key that is not filled stays as it is written.
fill_hole :
    (values : TranslationValues) (key : String)
    → get key values ≡ none
    → fill values (hole key) ≡ "{" <> (key <> "}")
unfolding fill
fill_hole values key h = rw (h, fill) refl

hole-Fills :
    (values : TranslationValues) (key text : String) (pieces : List Piece)
    → Fills values pieces text
    → Fills values
        ((if key == "" then plain "{}" else hole key) ∷ pieces)
        (("{" <> (key <> "}")) <> text)
unfolding fill_all
hole-Fills values key text pieces ih = elim (Bool-cases (key == "")) [
  | inl empty ↦ rw (empty, (eq_iff key "").0 empty) (plain-Fills values "{}" text pieces ih)
  | inr named ↦
      rw named (λ h. rw (fill_hole values key h.0) (ap (λ s. ("{" <> (key <> "}")) <> s) (ih h.1)))
]

moved :
    (values : TranslationValues) (pieces : List Piece) (text text' : String)
    → text ≡ text'
    → Fills values pieces text
    → Fills values pieces text'
moved values pieces text text' e f = λ h. f h ∙ e

fill_all-scan :
    (values : TranslationValues) (state : Option String) (text : String)
    → Fills values (scan state text) (pending state text)
unfolding fill_all fill scan
fill_all-scan values none String.[] = λ h. refl
fill_all-scan values (some key) String.[] =
    λ h. append-nil _ ∙ ap (λ s. "{" <> s) (sym (append-nil key))
fill_all-scan values none (String.◌∷◌ c text) = elim (Bool-cases (eqb (code c) b'{')) [
  | inl opens ↦
      rw (opens, scan)
        (moved values _ _ _ (open_text c text opens) (fill_all-scan values (some "") text))
  | inr other ↦
      rw (other, scan)
        (moved values (plain (String.◌∷◌ c String.[]) ∷ scan none text) _ _ (cons_single c text)
          (plain-Fills values _ _ _ (fill_all-scan values none text)))
]
fill_all-scan values (some key) (String.◌∷◌ c text) = elim (Bool-cases (is_word (code c))) [
  | inl more ↦
      rw (more, scan)
        (moved values _ _ _ (ap (λ s. "{" <> s) (key_text c key text))
          (fill_all-scan values (some (key <> String.◌∷◌ c String.[])) text))
  | inr ends ↦ elim (Bool-cases (eqb (code c) b'{')) [
    | inl opens ↦
        rw (ends, scan, opens)
          (moved values (plain ("{" <> key) ∷ scan (some "") text)
            (("{" <> key) <> ("{" <> ("" <> text))) _
            (append_assoc "{" key _ ∙ ap (λ s. "{" <> (key <> s)) (open_text c text opens))
            (plain-Fills values _ _ _ (fill_all-scan values (some "") text)))
    | inr other ↦ elim (Bool-cases (eqb (code c) b'}')) [
      | inl closes ↦
          rw (ends, scan, other, closes)
            (moved values ((if key == "" then plain "{}" else hole key) ∷ scan none text) _ _
              (close_text c key text closes)
              (hole-Fills values key _ _ (fill_all-scan values none text)))
      | inr stray ↦
          rw (ends, scan, other, stray)
            (moved values (plain ("{" <> (key <> String.◌∷◌ c String.[])) ∷ scan none text) _ _
              (append_assoc "{" _ text ∙ ap (λ s. "{" <> s) (key_text c key text))
              (plain-Fills values _ _ _ (fill_all-scan values none text)))
    ]
  ]
]

-- A text with placeholders for which there is no value is shown as it is written, whatever the
-- values are: nothing but a placeholder that has a value is replaced.
pub interpolate-keeps :
    (text : String) (values : TranslationValues)
    → IsUnnamed values (holes (scan none text))
    → interpolate text (some values) ≡ text
unfolding interpolate
interpolate-keeps text values h = fill_all-scan values none text h
