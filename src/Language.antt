-- ===== src/Language.antt =====
-- frontend/src/components/i18n/i18n-provider.tsx: the texts of the pages in the reader's language. A
-- text or a key that names a member of Object.prototype is looked up by none of the program's calls.
-- The dictionary `fa` is data and an argument here: what is shown holds for every dictionary.
pub mod Locale
pub mod Labels
pub mod Kept
pub mod Filled
pub mod Choice
use Prim.Native.Char.{Char, code}
use enterprise_crm.Common.{
  ◌≡◌, refl, ℕ, String, Bool, true, false, Option, none, some, List, [], ◌∷◌, ◌<>◌, ◌==◌, ◌||◌, eqb,
  if◌then◌else◌, or_else,
}
use enterprise_crm.Common.Entries.{get}
use enterprise_crm.Common.Text.{in_range}
use enterprise_crm.Services.Query.{decimal}

pub data AppLocale : Type 0 where
  english persian : AppLocale

-- `locale === "fa"`
abbrev pub is_persian : AppLocale → Bool
is_persian english = false
is_persian persian = true

pub data TranslationValue : Type 0 where
  words : String → TranslationValue
  number : ℕ → TranslationValue

-- `String(value)`
unfoldable pub value_text : TranslationValue → String
value_text (words text) = text
value_text (number n) = decimal n n ""

abbrev pub TranslationValues : Type 0
TranslationValues = List (String × TranslationValue)

-- The class `\w` of regular expressions.
unfoldable pub is_word : ℕ → Bool
is_word n = in_range b'a' b'z' n || in_range b'A' b'Z' n || in_range b'0' b'9' n || eqb n b'_'

-- A match of `{name}`, or a piece of the text between the matches.
pub data Piece : Type 0 where
  plain hole : String → Piece

-- Read on from a `{` and the word characters behind it, if the text so far ends like this.
unfoldable pub scan : Option String → String → List Piece
unfolding is_word
scan none String.[] = []
scan (some key) String.[] = plain ("{" <> key) ∷ []
scan none (String.◌∷◌ c rest) = elim (eqb (code c) b'{') [
  | true ↦ scan (some "") rest
  | false ↦ plain (String.◌∷◌ c String.[]) ∷ scan none rest
]
scan (some key) (String.◌∷◌ c rest) = elim (is_word (code c)) [
  | true ↦ scan (some (key <> String.◌∷◌ c String.[])) rest
  | false ↦ elim (eqb (code c) b'{') [
    | true ↦ plain ("{" <> key) ∷ scan (some "") rest
    | false ↦ elim (eqb (code c) b'}') [
      | true ↦ (if key == "" then plain "{}" else hole key) ∷ scan none rest
      | false ↦ plain ("{" <> (key <> String.◌∷◌ c String.[])) ∷ scan none rest
    ]
  ]
]

-- What a match is replaced by.
unfoldable pub fill : TranslationValues → Piece → String
unfolding get value_text
fill values (plain text) = text
fill values (hole key) = elim (get key values) [
  | none ↦ "{" <> (key <> "}")
  | some value ↦ value_text value
]

unfoldable pub fill_all : TranslationValues → List Piece → String
unfolding fill
fill_all values [] = ""
fill_all values (piece ∷ pieces) = fill values piece <> fill_all values pieces

unfoldable pub interpolate : String → Option TranslationValues → String
unfolding fill_all scan
interpolate template none = template
interpolate template (some values) = fill_all values (scan none template)

-- The dictionary: each English text with its translation.
abbrev pub Translations : Type 0
Translations = List (String × String)

module _ (fa : Translations) where
  unfoldable pub translated : AppLocale → String → String
  unfolding get
  translated english source = source
  translated persian source = or_else (get source fa) source

  unfoldable pub t : AppLocale → String → Option TranslationValues → String
  unfolding translated interpolate
  t locale source values = interpolate (translated locale source) values

interpolate_sample :
    interpolate "a {n} of {{x} {y-}" (some (("n", number 12) ∷ ("x", words "q") ∷ []))
    ≡ "a 12 of {q {y-}"
unfolding interpolate decimal
interpolate_sample = refl
