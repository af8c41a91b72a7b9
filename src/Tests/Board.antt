-- ===== src/Tests/Board.antt =====
-- The theorems on the sales board, on two deals and on a back end that cuts them into pages.
use enterprise_crm.Common.{
  ◌≡◌, ◌≢◌, refl, ℕ, ◌+◌, String, true, Option, none, some, List, [], ◌∷◌, ◌==◌, if◌then◌else◌, eqb,
  arith,
}
use enterprise_crm.Common.Entries.{get}
use enterprise_crm.Hooks.{content, other_failure}
use enterprise_crm.Services.Query.{QueryValue, number}
use enterprise_crm.SalesBoard.{
  Scalar, amount, text, Deal, PipelineStage, Board, open_deal, find_deal, to_stage, may_move,
  begin_move, settle_move, change_deal,
}
use enterprise_crm.SalesBoard.Moves.{map_found, moved, move-settled, move-lost}
use enterprise_crm.SalesBoard.Pages.{DealPage, Lists, load_all_pipeline_deals}
use enterprise_crm.SalesBoard.Pages.Complete.{page_of, load_all-deals}
use enterprise_crm.SalesBoard.Pages.Ends.{load_all-ends}
use enterprise_crm.SalesBoard.Totals.{stage_totals}

abbrev deal_worth : String → Scalar → Deal
deal_worth id value = record {
  id = id;
  title = "Deal";
  stage_id = "s1";
  probability = amount 10;
  value = value;
  currency = "USD";
  status = open_deal;
}

abbrev two_deals : List Deal
two_deals = deal_worth "d1" (amount 5) ∷ deal_worth "d2" (text "7") ∷ []

-- Whatever page is asked for, cut from the two deals.
abbrev page_number : List (String × QueryValue) → ℕ
page_number ((name, number page) ∷ rest) = page
page_number _ = 0

abbrev cuts : Lists
cuts query = content (page_of two_deals (page_number query))

load_all-deals_example : load_all_pipeline_deals 0 cuts "p1" ≡ some (content two_deals)
load_all-deals_example = load_all-deals cuts "p1" two_deals 0 (λ page. refl) (omega arith)

-- A back end that announces three pages of one deal, and fails on the third.
abbrev short_page : DealPage
short_page = record {
  items = deal_worth "d1" (amount 5) ∷ [];
  meta = record { page = 1; page_size = 1; total = 3 };
}

abbrev breaks : Lists
breaks query = if eqb (page_number query) 3 then other_failure else content short_page

load_all-ends_example : load_all_pipeline_deals 3 breaks "p1" ≢ none
load_all-ends_example = load_all-ends breaks "p1" short_page 3 refl (omega arith) (omega arith)

abbrev won_stage : PipelineStage
won_stage = record { id = "s2"; order = 2; probability = amount 100 }

abbrev board : Board
board = record { deals = two_deals; moving_deal_id = none; error = none; can_update_deals = true }

abbrev answered : Deal
answered = record (deal_worth "d1" (amount 5)) { stage_id = "s2"; probability = amount 100 }

may_lem : may_move "d1" won_stage board ≡ true
unfolding may_move
may_lem = refl

move-settled_example :
    (find_deal "d2" (begin_move "d1" won_stage board).deals ≡ (
      if "d2" == "d1"
      then map_found (to_stage won_stage) (find_deal "d2" two_deals)
      else find_deal "d2" two_deals))
    × (find_deal "d2"
          (settle_move "d1" two_deals (content answered) (begin_move "d1" won_stage board)).deals
        ≡ (if "d2" == "d1"
            then moved (content answered) (find_deal "d2" two_deals)
            else find_deal "d2" two_deals))
    × ((settle_move "d1" two_deals
          (content answered)
          (begin_move "d1" won_stage board)).moving_deal_id
        ≡ none)
move-settled_example = move-settled "d1" "d2" won_stage board (content answered) may_lem refl

abbrev one_moving : Board
one_moving = begin_move "d2" won_stage board

abbrev both_moved : Board
both_moved =
    settle_move "d1" one_moving.deals (content answered) (begin_move "d1" won_stage one_moving)

may_overlap : may_move "d1" won_stage one_moving ≡ true
unfolding may_move begin_move change_deal find_deal
may_overlap = refl

move-lost_example :
    (find_deal "d1" both_moved.deals ≡ some answered)
    × (find_deal "d1" (settle_move "d2" board.deals other_failure both_moved).deals
        ≡ find_deal "d1" board.deals)
move-lost_example =
    move-lost "d2" "d1" "d1" won_stage won_stage board answered other_failure may_overlap refl refl

-- Sums of natural numbers, where a text is none.
abbrev number_of : Scalar → Option ℕ
number_of (amount n) = some n
number_of (text s) = none

abbrev plus : ℕ → ℕ → ℕ
plus a b = a + b

usd_total : get "USD" (stage_totals number_of 0 plus two_deals) ≡ some 5
unfolding get stage_totals
usd_total = refl
