-- ===== src/SalesBoard/Moves.antt =====
-- frontend/src/features/sales-board/sales-board-workspace.tsx: moves of deals, and what they undo.
use enterprise_crm.Common.{
  ◌≡◌, refl, ◌∙◌, ap, String, Bool, true, false, Option, none, some, List, [], ◌∷◌, ◌==◌, eq_iff,
  if◌then◌else◌, arith, is_some,
}
use enterprise_crm.Hooks.{Loaded, content, api_failure, other_failure}
use enterprise_crm.SalesBoard.{
  Deal, PipelineStage, Board, find_deal, change_deal, to_stage, may_move, begin_move, settle_move,
  is_failure,
}

abbrev pub map_found : (Deal → Deal) → Option Deal → Option Deal
map_found change none = none
map_found change (some deal) = some (change deal)

-- A change that keeps the ids of the deals that it is for changes what is found for this id only.
find_deal-change_deal :
    (deal_id other : String) (change : Deal → Deal) (deals : List Deal)
    → ((deal : Deal) → deal.id ≡ deal_id → (change deal).id ≡ deal_id)
    → find_deal other (change_deal deal_id change deals) ≡ (
        if other == deal_id
        then map_found change (find_deal other deals)
        else find_deal other deals)
unfolding find_deal change_deal
find_deal-change_deal deal_id other change [] keeps = ground (arith)
find_deal-change_deal deal_id other change (deal ∷ deals) keeps = ground (
  arith,
  keeps deal,
  eq_iff deal.id deal_id,
  eq_iff (change deal).id other,
  eq_iff deal.id other,
  eq_iff other deal_id,
  find_deal-change_deal deal_id other change deals keeps,
)

-- The back end answers with the deal that was asked for.
abbrev pub Answers : String → Loaded Deal → Type 0
Answers deal_id (content updated) = updated.id ≡ deal_id
Answers deal_id _ = Unit

-- The deal that a move ends with: the back end's, or the one of before.
abbrev pub moved : Loaded Deal → Option Deal → Option Deal
moved (content updated) found = map_found (λ _. updated) found
moved _ found = found

find_deal-begin_move :
    (deal_id other : String) (stage : PipelineStage) (board : Board)
    → may_move deal_id stage board ≡ true
    → find_deal other (begin_move deal_id stage board).deals ≡ (
        if other == deal_id
        then map_found (to_stage stage) (find_deal other board.deals)
        else find_deal other board.deals)
unfolding begin_move
find_deal-begin_move deal_id other stage board may =
    rw may (find_deal-change_deal deal_id other (to_stage stage) board.deals (λ deal e. e))

if_same : (b : Bool) (found : Option Deal) → found ≡ (if b then found else found)
if_same true found = refl
if_same false found = refl

map_found_twice :
    (b : Bool) (f g : Deal → Deal) (found : Option Deal)
    → (if b
        then map_found g (if b then map_found f found else found)
        else if b
        then map_found f found
        else found)
      ≡ (if b then map_found (λ d. g (f d)) found else found)
map_found_twice true f g none = refl
map_found_twice true f g (some deal) = refl
map_found_twice false f g found = refl

-- A move shows its deal in the new stage while it waits. When it ends with nothing between, the deal is
-- the one that the back end answered with, or, if the call failed, the one of before; every other
-- deal is found as it was, and no deal is shown as moving.
pub move-settled :
    (deal_id other : String) (stage : PipelineStage) (board : Board) (outcome : Loaded Deal)
    → may_move deal_id stage board ≡ true
    → Answers deal_id outcome
    → (find_deal other (begin_move deal_id stage board).deals ≡ (
        if other == deal_id
        then map_found (to_stage stage) (find_deal other board.deals)
        else find_deal other board.deals))
      × (find_deal other
            (settle_move deal_id board.deals outcome (begin_move deal_id stage board)).deals
          ≡ (if other == deal_id
              then moved outcome (find_deal other board.deals)
              else find_deal other board.deals))
      × ((settle_move deal_id board.deals outcome (begin_move deal_id stage board)).moving_deal_id
          ≡ none)
unfolding settle_move
move-settled deal_id other stage board (content updated) may answers = (
  find_deal-begin_move deal_id other stage board may,
  find_deal-change_deal deal_id other (λ _. updated) _ (λ deal e. answers)
      ∙ ap
          (λ (found : Option Deal).
            if other == deal_id then map_found (λ _. updated) found else found)
          (find_deal-begin_move deal_id other stage board may)
      ∙ map_found_twice (other == deal_id) (to_stage stage) (λ _. updated)
          (find_deal other board.deals),
  refl,
)
move-settled deal_id other stage board (api_failure message) may answers =
    (find_deal-begin_move deal_id other stage board may, if_same (other == deal_id) _, refl)
move-settled deal_id other stage board other_failure may answers =
    (find_deal-begin_move deal_id other stage board may, if_same (other == deal_id) _, refl)

rolled_back :
    (deal_id : String) (previous_deals : List Deal) (failure : Loaded Deal) (board : Board)
    → is_failure failure ≡ true
    → (settle_move deal_id previous_deals failure board).deals ≡ previous_deals
unfolding settle_move
rolled_back deal_id previous_deals (content deal) board fails = absurd (ground arith)
rolled_back deal_id previous_deals (api_failure message) board fails = refl
rolled_back deal_id previous_deals other_failure board fails = refl

may_move-found :
    (deal_id : String) (stage : PipelineStage) (board : Board)
    → may_move deal_id stage board ≡ true
    → is_some (find_deal deal_id board.deals) ≡ true
unfolding may_move
may_move-found deal_id stage board may = ground arith

replaced_found :
    (updated : Deal) (found : Option Deal)
    → is_some found ≡ true
    → map_found (λ _. updated) found ≡ some updated
replaced_found updated none h = absurd (ground arith)
replaced_found updated (some deal) h = refl

-- A move that succeeds, with nothing between, shows the deal that the back end answered with.
move-shown :
    (deal_id : String) (stage : PipelineStage) (board : Board) (updated : Deal)
    → may_move deal_id stage board ≡ true
    → updated.id ≡ deal_id
    → find_deal deal_id
        (settle_move deal_id board.deals (content updated) (begin_move deal_id stage board)).deals
      ≡ some updated
move-shown deal_id stage board updated may answers =
    (move-settled deal_id deal_id stage board (content updated) may answers).1
    ∙ rw ((eq_iff deal_id deal_id).1 refl) (
        replaced_found updated (find_deal deal_id board.deals)
          (may_move-found deal_id stage board may))

-- Two moves that overlap: `first` begins, `second` begins and succeeds, and then `first` fails. Before
-- this failure the board shows the second deal as the back end has answered; after it, it shows every
-- deal, the second too, as before both moves.
pub move-lost :
    (first second other : String) (stage next_stage : PipelineStage) (board : Board)
    (updated : Deal) (failure : Loaded Deal)
    → may_move second next_stage (begin_move first stage board) ≡ true
    → updated.id ≡ second
    → is_failure failure ≡ true
    → let moving = begin_move first stage board in
      let both =
        settle_move second moving.deals (content updated) (begin_move second next_stage moving) in
      (find_deal second both.deals ≡ some updated)
      × (find_deal other (settle_move first board.deals failure both).deals
          ≡ find_deal other board.deals)
move-lost first second other stage next_stage board updated failure may answers fails = (
  move-shown second next_stage (begin_move first stage board) updated may answers,
  ap (find_deal other) (rolled_back first board.deals failure _ fails),
)
