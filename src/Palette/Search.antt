-- ===== src/Palette/Search.antt =====
-- frontend/src/components/command/command-palette.tsx: when the palette says that it is searching.
use enterprise_crm.Common.{
  ◌≡◌, refl, String, Bool, true, false, not, ◌&&◌, ◌==◌, List, [], if◌then◌else◌, arith,
}
use enterprise_crm.Common.Text.{trim}
use enterprise_crm.Hooks.{Loaded}
use enterprise_crm.Palette.{
  SearchResult, SearchRun, no_search, waiting, Palette, can_search, change_query, settle_search,
}

abbrev pub is_waiting : SearchRun → Bool
is_waiting waiting = true
is_waiting _ = false

-- The palette says that it is searching, but no search is on its way: it says so until the query is
-- changed again.
abbrev pub is_stuck : Palette → Bool
is_stuck palette = palette.is_searching && not (is_waiting palette.run)

stuck_cases :
    (may same : Bool) (run : SearchRun)
    → (may && not (is_waiting (if same then run else if may then waiting else no_search)))
      ≡ (may && (same && not (is_waiting run)))
stuck_cases true true run = refl
stuck_cases true false run = refl
stuck_cases false same run = refl

-- A change of the query leaves the palette stuck, without the results that it had, exactly if the
-- change is only of white space around it, while one may search for it and its search has ended. The
-- end of a search never leaves it stuck.
pub change_query-is_stuck :
    (names : List String) (next_query : String) (palette : Palette)
    (found : Loaded (List SearchResult))
    → (is_stuck (change_query names next_query palette) ≡ (
        can_search names next_query
        && ((trim next_query == trim palette.query) && not (is_waiting palette.run))))
      × ((change_query names next_query palette).results ≡ [])
      × (is_stuck (settle_search found palette) ≡ (is_stuck palette))
unfolding change_query settle_search
change_query-is_stuck names next_query palette found = (
  stuck_cases (can_search names next_query) (trim next_query == trim palette.query) palette.run,
  refl,
  ground arith,
)
