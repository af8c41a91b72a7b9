-- ===== src/Palette.antt =====
-- frontend/src/components/command/command-palette.tsx: the palette of commands and search results.
pub mod Commands
pub mod Search
pub mod Keys
use Prim.Native.Char.{code}
use enterprise_crm.Common.{
  ◌≡◌, refl, ℕ, zero, suc, ◌+◌, ◌-◌, min, max, String, Bool, true, false, not, ◌&&◌, ◌||◌, ◌<>◌,
  ◌==◌, Option, none, some, List, [], ◌∷◌, ◌++◌, if◌then◌else◌, all, any, filter, map, length, take,
  leb, ltb,
}
use enterprise_crm.Common.Text.{trim, includes}
use enterprise_crm.Hooks.{Loaded, content, api_failure, other_failure}
use enterprise_crm.Navigation.{has}
pub use enterprise_crm.Palette.Commands.{StaticCommand}
unfoldable pub use enterprise_crm.Palette.Commands.{commands, has_access}

-- `text.length`, in the units of UTF-16.
unfoldable pub utf16_length : String → ℕ
utf16_length String.[] = 0
utf16_length (String.◌∷◌ c rest) =
    let more = utf16_length rest in if ltb (code c) 65536 then suc more else suc (suc more)

abbrev pub can_search : List String → String → Bool
can_search names query = leb 2 (utf16_length (trim query)) && has "search.read" names

-- The texts of a label that the query is looked for in: `lower` is `toLocaleLowerCase`, `t` the
-- translation.
unfoldable pub visible_commands :
    (lower t : String → String) → List String → String → List StaticCommand
unfolding has_access includes filter trim
visible_commands lower t names query =
    let normalized = lower (trim query) in
    filter
      (λ command.
        has_access command names
        && (normalized == ""
            || includes (lower (t command.label)) normalized
            || includes (lower command.label) normalized))
      commands

pub data EntityType : Type 0 where
  activity company contact deal lead note task : EntityType

pub record SearchResult : Type 0 where
  pub entity_type : EntityType
  pub id : String

abbrev pub route_by_type : EntityType → String
route_by_type activity = "activities"
route_by_type company = "companies"
route_by_type contact = "contacts"
route_by_type deal = "deals"
route_by_type lead = "leads"
route_by_type note = "notes"
route_by_type task = "tasks"

unfoldable pub search_result_path : SearchResult → String
search_result_path result =
    "/dashboard/" <> (route_by_type result.entity_type <> ("/" <> result.id))

pub data PaletteItem : Type 0 where
  command_item : StaticCommand → PaletteItem
  result_item : SearchResult → PaletteItem

-- The run of the search effect for the trimmed query: none, or one that waits, or one that has ended.
pub data SearchRun : Type 0 where
  no_search waiting ended : SearchRun

pub record Palette : Type 0 where
  pub query : String
  pub results : List SearchResult
  pub is_searching : Bool
  pub active_index : ℕ
  pub run : SearchRun

abbrev pub opened : Palette
opened = record {
  query = "";
  results = [];
  is_searching = false;
  active_index = 0;
  run = no_search;
}

module _ (names : List String) where
  -- The input's `onChange`, and the effect, which runs again if what it depends on has changed: the
  -- trimmed query, since whether one may search follows from it.
  unfoldable pub change_query : String → Palette → Palette
  unfolding trim utf16_length has
  change_query next_query palette = record {
    query = next_query;
    results = [];
    is_searching = can_search names next_query;
    active_index = 0;
    run =
        if trim next_query == trim palette.query
        then palette.run
        else if can_search names next_query
        then waiting
        else no_search;
  }

  abbrev pub visible_results : Palette → List SearchResult
  visible_results palette = if can_search names palette.query then palette.results else []

  unfoldable pub palette_items : (lower t : String → String) → Palette → List PaletteItem
  unfolding visible_commands
  palette_items lower t palette =
      map command_item (visible_commands lower t names palette.query)
      ++ map result_item (visible_results palette)

abbrev pub found_results : Loaded (List SearchResult) → List SearchResult
found_results (content items) = take 12 items
found_results _ = []

-- The search of the run that waits has settled.
unfoldable pub settle_search : Loaded (List SearchResult) → Palette → Palette
unfolding take
settle_search found palette = elim palette.run [
  | waiting ↦ record palette { results = found_results found; is_searching = false; run = ended }
  | no_search ↦ palette
  | ended ↦ palette
]

unfoldable pub selected_index : List PaletteItem → Palette → ℕ
selected_index items palette = min palette.active_index (max (length items - 1) 0)

unfoldable pub arrow_down : List PaletteItem → Palette → Palette
arrow_down items palette = record palette {
  active_index = min (palette.active_index + 1) (max (length items - 1) 0);
}

unfoldable pub arrow_up : Palette → Palette
arrow_up palette = record palette { active_index = max (palette.active_index - 1) 0 }

unfoldable pub item_at : ℕ → List PaletteItem → Option PaletteItem
item_at n [] = none
item_at zero (item ∷ items) = some item
item_at (suc n) (item ∷ items) = item_at n items

abbrev pub href_of : PaletteItem → String
href_of (command_item command) = command.href
href_of (result_item result) = search_result_path result

-- The page that Enter opens, if it opens one.
unfoldable pub enter_item : List PaletteItem → Palette → Option String
unfolding item_at selected_index search_result_path
enter_item items palette = elim (item_at (selected_index items palette) items) [
  | none ↦ none
  | some item ↦ some (href_of item)
]
