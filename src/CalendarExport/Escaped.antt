-- ===== src/CalendarExport/Escaped.antt =====
-- frontend/src/utils/calendar-export.ts: escaped texts.
use Prim.Native.Char.{Char, code}
use enterprise_crm.Common.{
  ◌≡◌, ◌≢◌, refl, ap, inl, inr, ℕ, String, Bool, true, false, Option, none, some, eqb,
  if◌then◌else◌, arith, Bool-cases,
}
use enterprise_crm.CalendarExport.{replace, escape_ics}
use enterprise_crm.Language.Kept.{char_eq}

-- How a calendar reads an escaped text; `pending` says that a backslash has been read.
abbrev pub push : Char → Option String → Option String
push c none = none
push c (some text) = some (String.◌∷◌ c text)

pub unescape : (pending : Bool) → String → Option String
unescape true String.[] = none
unescape false String.[] = some ""
unescape true (String.◌∷◌ c rest) =
    push (if eqb (code c) b'n' then "\n" else c) (unescape false rest)
unescape false (String.◌∷◌ c rest) = elim (eqb (code c) b'\\') [
  | true ↦ unescape true rest
  | false ↦ push c (unescape false rest)
]

unescape_escaped : (value : String) → unescape false (escape_ics value) ≡ some value
unfolding unescape escape_ics replace
unescape_escaped String.[] = refl
unescape_escaped (String.◌∷◌ c value) =
    let rest = unescape_escaped value in
    elim (Bool-cases (eqb (code c) b'\\')) [
      | inl slash ↦ rw (char_eq c "\\" slash) (ap (push "\\") rest)
      | inr no_slash ↦ elim (Bool-cases (eqb (code c) 10)) [
        | inl break ↦ rw (char_eq c "\n" break) (ap (push "\n") rest)
        | inr no_break ↦ elim (Bool-cases (eqb (code c) b',')) [
          | inl comma ↦ rw (char_eq c "," comma) (ap (push ",") rest)
          | inr no_comma ↦ elim (Bool-cases (eqb (code c) b';')) [
            | inl semicolon ↦ rw (char_eq c ";" semicolon) (ap (push ";") rest)
            | inr plain ↦
                rw
                  (
                    no_slash, replace, no_break, replace, no_comma, replace, plain, unescape,
                    no_slash,
                  )
                  (ap (push c) rest)
          ]
        ]
      ]
    ]

abbrev pub HasNoBreak : String → Type 0
HasNoBreak String.[] = Unit
HasNoBreak (String.◌∷◌ c rest) = (code c ≢ 10) × HasNoBreak rest

replace-HasNoBreak :
    (wanted : ℕ) (first second : Char) (value : String)
    → code first ≢ 10
    → code second ≢ 10
    → HasNoBreak value
    → HasNoBreak (replace wanted first second value)
unfolding replace
replace-HasNoBreak wanted first second String.[] f g h = tt
replace-HasNoBreak wanted first second (String.◌∷◌ c value) f g h =
    ground (arith, replace-HasNoBreak wanted first second value)

replace_break : (value : String) → HasNoBreak (replace 10 "\\" "n" value)
unfolding replace
replace_break String.[] = tt
replace_break (String.◌∷◌ c value) = ground (arith, replace_break value)

-- A calendar that reads a text of the file as the format says, a backslash as the sign that the next
-- character is meant and `n` after one as a line break, gets back the text that was written. The
-- written text holds no line break, so that no text of an item can begin a line of the file.
pub unescape-escape_ics :
    (value : String)
    → (unescape false (escape_ics value) ≡ some value) × HasNoBreak (escape_ics value)
unfolding escape_ics
unescape-escape_ics value =
    let slashes = replace b'\\' "\\" "\\" value in
    let breaks = replace 10 "\\" "n" slashes in
    let commas = replace b',' "\\" "," breaks in
    (
      unescape_escaped value,
      replace-HasNoBreak b';' "\\" ";" commas (omega arith) (omega arith) (
          replace-HasNoBreak b',' "\\" "," breaks (omega arith) (omega arith)
            (replace_break slashes)),
    )
