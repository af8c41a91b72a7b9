-- ===== src/SalesBoard/Pages/Ends.antt =====
-- frontend/src/features/sales-board/sales-board-workspace.tsx: loadAllPipelineDeals ends, whatever the
-- back end answers.
use native.Mathlib.Nat.{div-lt_iff_lt-mul, add-mul}
use enterprise_crm.Common.{
  ◌≡◌, ◌≢◌, refl, inl, inr, ℕ, zero, suc, ◌+◌, ◌-◌, ◌*◌, ◌/◌, ◌≤◌, ◌<◌, String, false, none, some,
  List, ◌++◌, leb, eqb, arith, Bool-cases,
}
use enterprise_crm.Hooks.{Loaded, content, api_failure, other_failure}
use enterprise_crm.SalesBoard.{Deal}
use enterprise_crm.SalesBoard.Pages.{
  DealPage, Lists, page_query, pages, total_pages, load_further, load_all_pipeline_deals,
}

some_ends : {A : Type 0} (a : A) → some a ≢ none
some_ends a h = cc

module _ (list : Lists) (pipeline_id : String) (n : ℕ) where
  -- A round with the page's answer in hand.
  round_ends :
      (fuel page : ℕ) (items : List Deal) (answer : Loaded DealPage)
      → ((more : List Deal) → load_further fuel list pipeline_id (pages n) (page + 1) more ≢ none)
      → list (page_query pipeline_id page) ≡ answer
      → load_further (suc fuel) list pipeline_id (pages n) page items ≢ none
  unfolding load_further
  round_ends fuel page items (content result) rest e = elim (Bool-cases (leb page n)) [
    | inr beyond ↦ rw (beyond, load_further) (some_ends _)
    | inl within ↦ rw (within, load_further, e) (rest (items ++ result.items))
  ]
  round_ends fuel page items (api_failure message) rest e = elim (Bool-cases (leb page n)) [
    | inr beyond ↦ rw (beyond, load_further) (some_ends _)
    | inl within ↦ rw (within, load_further, e) (some_ends _)
  ]
  round_ends fuel page items other_failure rest e = elim (Bool-cases (leb page n)) [
    | inr beyond ↦ rw (beyond, load_further) (some_ends _)
    | inl within ↦ rw (within, load_further, e) (some_ends _)
  ]

  load_further-ends :
      (fuel page : ℕ) (items : List Deal)
      → n < page + fuel
      → load_further fuel list pipeline_id (pages n) page items ≢ none
  unfolding load_further
  load_further-ends zero page items h =
      let beyond : leb page n ≡ false = ground arith in rw beyond (some_ends _)
  load_further-ends (suc fuel) page items h =
      round_ends fuel page items (list (page_query pipeline_id page))
        (λ more. load_further-ends fuel (page + 1) more (omega arith)) refl

few_pages :
    (total size fuel : ℕ) → 0 < size → total ≤ fuel * size → (total + (size - 1)) / size < 2 + fuel
few_pages total size fuel pos h =
    let e : (2 + fuel) * size ≡ 2 * size + fuel * size = add-mul 2 fuel size in
    (div-lt_iff_lt-mul pos).1 (rw e (omega arith))

-- If the first page comes with a size, the loading ends, with the deals or with an error, after as
-- many rounds as hold the announced total, whatever the back end answers to the further calls.
pub load_all-ends :
    (list : Lists) (pipeline_id : String) (first_page : DealPage) (fuel : ℕ)
    → list (page_query pipeline_id 1) ≡ content first_page
    → 0 < first_page.meta.page_size
    → first_page.meta.total ≤ fuel * first_page.meta.page_size
    → load_all_pipeline_deals fuel list pipeline_id ≢ none
unfolding load_all_pipeline_deals total_pages
load_all-ends list pipeline_id first_page fuel e pos h =
    let sized : eqb first_page.meta.page_size 0 ≡ false = ground arith in
    elim (Bool-cases (
      leb ((first_page.meta.total + (first_page.meta.page_size - 1)) / first_page.meta.page_size)
        1)) [
          | inl one ↦ rw (e, load_all_pipeline_deals, sized, one) (some_ends _)
          | inr more ↦
              rw (e, load_all_pipeline_deals, sized, more)
                (load_further-ends list pipeline_id _ fuel 2 first_page.items
                  (few_pages _ _ fuel pos h))
        ]
