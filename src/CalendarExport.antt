-- ===== src/CalendarExport.antt =====
-- frontend/src/utils/calendar-export.ts: the planner's items as a calendar file.
pub mod Escaped
use Prim.Native.Char.{Char, code}
use enterprise_crm.Common.{
  ◌≡◌, refl, ℕ, String, Bool, true, false, Option, none, some, List, [], ◌∷◌, ◌++◌, ◌<>◌, ◌==◌, eqb,
  if◌then◌else◌,
}

-- `replace` of every character with a code. All texts that the module puts in its place have two.
unfoldable pub replace : ℕ → Char → Char → String → String
replace wanted first second String.[] = ""
replace wanted first second (String.◌∷◌ c rest) =
    let replaced = replace wanted first second rest in
    if eqb (code c) wanted
    then String.◌∷◌ first (String.◌∷◌ second replaced)
    else String.◌∷◌ c replaced

unfoldable pub escape_ics : String → String
unfolding replace
escape_ics value =
    replace b';' "\\" ";"
      (replace b',' "\\" "," (replace 10 "\\" "n" (replace b'\\' "\\" "\\" value)))

pub record CalendarExportEntry : Type 0 where
  pub due_date : String
  pub id : String
  pub kind : String
  pub title : String
  pub meta : Option String

unfoldable pub join_lines : List String → String
join_lines [] = ""
join_lines (line ∷ []) = line
join_lines (line ∷ next ∷ lines) = line <> ("\r\n" <> join_lines (next ∷ lines))

abbrev pub description_of : CalendarExportEntry → String
description_of entry = elim entry.meta [
  | none ↦ entry.kind
  | some meta ↦ if meta == "" then entry.kind else entry.kind <> (" · " <> meta)
]

abbrev pub event_lines : String → String → CalendarExportEntry → List String
event_lines now due entry =
    "BEGIN:VEVENT"
    ∷ ("UID:" <> escape_ics (entry.kind <> ("-" <> (entry.id <> "@enterprise-crm.local"))))
    ∷ ("DTSTAMP:" <> now)
    ∷ ("DTSTART:" <> due)
    ∷ ("SUMMARY:" <> escape_ics entry.title)
    ∷ ("DESCRIPTION:" <> escape_ics (description_of entry))
    ∷ "END:VEVENT"
    ∷ []

-- `utc_stamp` is what a text's date is written as, if the text is one.
module _ (utc_stamp : String → Option String) (now : String) where
  -- The lines of an entry, none where its date is not one.
  unfoldable pub lines_of : CalendarExportEntry → List String
  lines_of entry = elim (utc_stamp entry.due_date) [
    | none ↦ []
    | some due ↦ event_lines now due entry
  ]

  unfoldable pub all_lines : List CalendarExportEntry → List String
  unfolding lines_of
  all_lines [] = []
  all_lines (entry ∷ entries) = lines_of entry ++ all_lines entries

  -- The content of the file that is offered.
  unfoldable pub calendar_content : List CalendarExportEntry → String
  unfolding all_lines join_lines
  calendar_content entries = join_lines (
      "BEGIN:VCALENDAR"
      ∷ "VERSION:2.0"
      ∷ "PRODID:-//Enterprise CRM//V3 Planner//EN"
      ∷ "CALSCALE:GREGORIAN"
      ∷ (all_lines entries ++ "END:VCALENDAR" ∷ "" ∷ []))
