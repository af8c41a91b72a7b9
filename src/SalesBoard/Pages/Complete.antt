-- ===== src/SalesBoard/Pages/Complete.antt =====
-- frontend/src/features/sales-board/sales-board-workspace.tsx: loadAllPipelineDeals loads every deal,
-- and comes to an end.
use enterprise_crm.Common.{
  ◌≡◌, refl, ap, inl, inr, ℕ, zero, suc, ◌+◌, ◌-◌, ◌*◌, ◌/◌, ◌≤◌, String, false, Option, some, List,
  leb, if◌then◌else◌, length, take, drop, arith, Bool-cases,
}
use enterprise_crm.Common.Slices.{take_further, take_enough}
use enterprise_crm.Hooks.{Loaded, content}
use enterprise_crm.SalesBoard.{Deal}
use enterprise_crm.SalesBoard.Pages.{
  DealPage, Lists, page_query, pages, total_pages, load_further, load_all_pipeline_deals,
}

-- The page with this number of all deals of a pipeline, in pages of a hundred.
abbrev pub page_of : List Deal → ℕ → DealPage
page_of deals page = record {
  items = take 100 (drop (100 * (page - 1)) deals);
  meta = record { page = page; page_size = 100; total = length deals };
}

-- The back end cuts the pipeline's deals into pages, and does not change them meanwhile.
abbrev pub Serves : Lists → String → List Deal → Type 0
Serves list pipeline_id deals =
    (page : ℕ) → list (page_query pipeline_id page) ≡ content (page_of deals page)

abbrev count_of : List Deal → ℕ
count_of deals = (length deals + 99) / 100

beyond_all : (n k : ℕ) → leb (suc k) ((n + 99) / 100) ≡ false → n ≤ 100 * k
beyond_all n k h = let few : (n + 99) / 100 ≤ k = ground arith in omega arith

all_taken :
    (n : ℕ) (deals : List Deal)
    → length deals ≤ n
    → ◌≡◌ {A = Option (Loaded (List Deal))} (some (content (take n deals))) (some (content deals))
all_taken n deals h = ap (λ (l : List Deal). some (content l)) (take_enough n deals h)

module _ (list : Lists) (pipeline_id : String) (deals : List Deal)
    (serves : Serves list pipeline_id deals) where
  load_further-all :
      (fuel k : ℕ)
      → count_of deals ≤ fuel + k
      → load_further fuel list pipeline_id (pages (count_of deals)) (suc k) (take (100 * k) deals)
        ≡ some (content deals)
  unfolding load_further
  load_further-all zero k enough =
      let beyond : leb (suc k) (count_of deals) ≡ false = ground arith in
      rw beyond (all_taken (100 * k) deals (beyond_all (length deals) k beyond))
  load_further-all (suc fuel) k enough = elim (Bool-cases (leb (suc k) (count_of deals))) [
    | inl within ↦
        let e1 : suc k + 1 ≡ suc (suc k) = omega arith in
        let e2 : suc k - 1 ≡ k = omega arith in
        let e3 : 100 * k + 100 ≡ 100 * suc k = omega arith in
        rw (within, load_further, serves (suc k), e1, e2, take_further (100 * k) 100 deals, e3)
          (load_further-all fuel (suc k) (omega arith))
    | inr beyond ↦
        rw (beyond, load_further) (all_taken (100 * k) deals (beyond_all (length deals) k beyond))
  ]

  load_all-count :
      (fuel n : ℕ)
      → n ≡ count_of deals
      → n ≤ fuel + 1
      → (if leb n 1
          then some (content (take 100 deals))
          else load_further fuel list pipeline_id (pages n) 2 (take 100 deals))
        ≡ some (content deals)
  load_all-count fuel n e enough = elim (Bool-cases (leb n 1)) [
    | inl one ↦
        rw one (all_taken 100 deals (let few : count_of deals ≤ 1 = ground arith in omega arith))
    | inr more ↦ rw (more, e) (load_further-all fuel 1 (rw e at enough))
  ]

-- If the back end serves the deals of a pipeline in pages, the loading comes to an end with all of
-- them, in their order, each once, within one round for each hundred of them.
pub load_all-deals :
    (list : Lists) (pipeline_id : String) (deals : List Deal) (fuel : ℕ)
    → Serves list pipeline_id deals
    → length deals ≤ 100 * (fuel + 1)
    → load_all_pipeline_deals fuel list pipeline_id ≡ some (content deals)
unfolding load_all_pipeline_deals total_pages drop
load_all-deals list pipeline_id deals fuel serves enough =
    rw (serves 1, load_all_pipeline_deals)
      (load_all-count list pipeline_id deals serves fuel _ refl (omega arith))
