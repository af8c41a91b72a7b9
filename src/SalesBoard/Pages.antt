-- ===== src/SalesBoard/Pages.antt =====
-- frontend/src/features/sales-board/sales-board-workspace.tsx: loadAllPipelineDeals.
pub mod Complete
pub mod Ends
use enterprise_crm.Common.{
  ℕ, zero, suc, ◌+◌, ◌-◌, ◌/◌, String, Bool, true, false, Option, none, some, List, [], ◌∷◌, ◌++◌,
  leb, eqb, ltb, if◌then◌else◌,
}
use enterprise_crm.Hooks.{Loaded, content, api_failure, other_failure, PageMetadata}
use enterprise_crm.SalesBoard.{Deal}
use enterprise_crm.Services.Query.{QueryValue, number, words}

pub record DealPage : Type 0 where
  pub items : List Deal
  pub meta : PageMetadata

-- The call of `dealService.list`; a page is asked for once, so what comes back is a function of it.
abbrev pub Lists : Type 0
Lists = List (String × QueryValue) → Loaded DealPage

abbrev pub page_query : String → ℕ → List (String × QueryValue)
page_query pipeline_id page =
    ("page", number page)
    ∷ ("page_size", number 100)
    ∷ ("pipeline_id", words pipeline_id)
    ∷ ("sort_by", words "expected_close_date")
    ∷ ("sort_direction", words "asc")
    ∷ []

-- `Math.ceil(total / page_size)`: 0 / 0 is no number, and another number over 0 is infinite.
pub data PageCount : Type 0 where
  pages : ℕ → PageCount
  infinite not_a_number : PageCount

unfoldable pub total_pages : PageMetadata → PageCount
total_pages meta =
    if eqb meta.page_size 0
    then if eqb meta.total 0 then not_a_number else infinite
    else pages ((meta.total + (meta.page_size - 1)) / meta.page_size)

-- `totalPages <= 1` and `page <= totalPages`
abbrev pub at_most_one : PageCount → Bool
at_most_one (pages n) = leb n 1
at_most_one infinite = false
at_most_one not_a_number = false

abbrev pub is_within : ℕ → PageCount → Bool
is_within page (pages n) = leb page n
is_within page infinite = true
is_within page not_a_number = false

-- The loop over the further pages, for as many rounds as there is fuel; none if it still runs then.
unfoldable pub load_further :
    ℕ → Lists → String → PageCount → ℕ → List Deal → Option (Loaded (List Deal))
load_further zero list pipeline_id count page items =
    if is_within page count then none else some (content items)
load_further (suc fuel) list pipeline_id count page items = elim (is_within page count) [
  | true ↦ elim (list (page_query pipeline_id page)) [
    | content result ↦ load_further fuel list pipeline_id count (page + 1) (items ++ result.items)
    | api_failure message ↦ some (api_failure message)
    | other_failure ↦ some other_failure
  ]
  | false ↦ some (content items)
]

unfoldable pub load_all_pipeline_deals : ℕ → Lists → String → Option (Loaded (List Deal))
unfolding total_pages load_further
load_all_pipeline_deals fuel list pipeline_id = elim (list (page_query pipeline_id 1)) [
  | content first_page ↦
      if at_most_one (total_pages first_page.meta)
      then some (content first_page.items)
      else load_further fuel list pipeline_id (total_pages first_page.meta) 2 first_page.items
  | api_failure message ↦ some (api_failure message)
  | other_failure ↦ some other_failure
]
