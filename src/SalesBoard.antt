-- ===== src/SalesBoard.antt =====
-- frontend/src/features/sales-board/sales-board-workspace.tsx: the deals of a pipeline by their stages.
pub mod Moves
pub mod Pages
pub mod Totals
use enterprise_crm.Common.{
  ℕ, String, Bool, true, false, ◌||◌, not, Option, none, some, List, [], ◌∷◌, ◌==◌, if◌then◌else◌,
  map,
}
use enterprise_crm.Hooks.{Loaded, content, api_failure, other_failure, get_error_message}

-- A field that the back end sends as a number or as a text of one.
pub data Scalar : Type 0 where
  amount : ℕ → Scalar
  text : String → Scalar

pub data DealStatus : Type 0 where
  open_deal won lost : DealStatus

-- The fields of a deal that the board reads or changes; `title` stands for those that it only shows.
pub record Deal : Type 0 where
  pub id : String
  pub title : String
  pub stage_id : String
  pub probability : Scalar
  pub value : Scalar
  pub currency : String
  pub status : DealStatus

pub record PipelineStage : Type 0 where
  pub id : String
  pub order : ℕ
  pub probability : Scalar

pub record Board : Type 0 where
  pub deals : List Deal
  pub moving_deal_id : Option String
  pub error : Option String
  pub can_update_deals : Bool

unfoldable pub find_deal : String → List Deal → Option Deal
find_deal deal_id [] = none
find_deal deal_id (deal ∷ deals) = if deal.id == deal_id then some deal else find_deal deal_id deals

-- `items.map` with a change of the deals that have the id.
unfoldable pub change_deal : String → (Deal → Deal) → List Deal → List Deal
change_deal deal_id change [] = []
change_deal deal_id change (deal ∷ deals) =
    let rest = change_deal deal_id change deals in
    if deal.id == deal_id then change deal ∷ rest else deal ∷ rest

abbrev pub to_stage : PipelineStage → Deal → Deal
to_stage stage deal = record deal { probability = stage.probability; stage_id = stage.id }

-- The guard of `moveDeal`.
unfoldable pub may_move : String → PipelineStage → Board → Bool
unfolding find_deal
may_move deal_id stage board = elim (find_deal deal_id board.deals) [
  | none ↦ false
  | some current ↦ not (current.stage_id == stage.id || not board.can_update_deals)
]

-- `moveDeal` up to its call of the back end; what it remembers is the board's deals of before.
unfoldable pub begin_move : String → PipelineStage → Board → Board
unfolding may_move change_deal
begin_move deal_id stage board =
    if may_move deal_id stage board
    then record board {
      moving_deal_id = some deal_id;
      error = none;
      deals = change_deal deal_id (to_stage stage) board.deals;
    }
    else board

-- `moveDeal` once the call has settled.
unfoldable pub settle_move : String → List Deal → Loaded Deal → Board → Board
unfolding change_deal get_error_message
settle_move deal_id previous_deals (content updated) board = record board {
  moving_deal_id = none;
  deals = change_deal deal_id (λ _. updated) board.deals;
}
settle_move deal_id previous_deals (api_failure message) board = record board {
  moving_deal_id = none;
  deals = previous_deals;
  error = some message;
}
settle_move deal_id previous_deals other_failure board = record board {
  moving_deal_id = none;
  deals = previous_deals;
  error = some "Unable to load the sales board.";
}

abbrev pub is_failure : Loaded Deal → Bool
is_failure (content updated) = false
is_failure (api_failure message) = true
is_failure other_failure = true
