-- ===== src/SalesBoard/Totals.antt =====
-- frontend/src/features/sales-board/sales-board-workspace.tsx: stageTotals. Amounts are JavaScript's
-- numbers: `number_of` is `Number` where it is finite, and `add` their addition.
use enterprise_crm.Common.{
  ◌≡◌, refl, sym, ◌∙◌, ap, zero, suc, eq_iff, inl, inr, ℕ, ◌≤◌, String, Bool, Option, none, some,
  List, [], ◌∷◌, ◌==◌, if◌then◌else◌, or_else, arith, length, take, Bool-cases,
}
use enterprise_crm.Common.Entries.{get, set, get-set}
use enterprise_crm.SalesBoard.{Scalar, Deal}

module _ {N : Type 0} (number_of : Scalar → Option N) (nought : N) (add : N → N → N) where
  -- A round of the loop, for a deal's currency and its value.
  unfoldable pub add_value : String → Option N → List (String × N) → List (String × N)
  unfolding get set
  add_value currency none totals = totals
  add_value currency (some value) totals =
      set currency (add (or_else (get currency totals) nought) value) totals

  unfoldable pub add_deals : List Deal → List (String × N) → List (String × N)
  unfolding add_value
  add_deals [] totals = totals
  add_deals (deal ∷ deals) totals =
      add_deals deals (add_value deal.currency (number_of deal.value) totals)

  unfoldable pub stage_totals : List Deal → List (String × N)
  unfolding add_deals take
  stage_totals deals = take 2 (add_deals deals [])

  -- A sum so far, and a value that counts if its currency is the same.
  counted : Bool → Option N → Option N → Option N
  counted same none sum = sum
  counted same (some value) sum = if same then some (add (or_else sum nought) value) else sum

  -- The sum of the finite values in one currency, in the deals' order; none if there are none.
  pub sum_in : String → List Deal → Option N → Option N
  sum_in currency [] sum = sum
  sum_in currency (deal ∷ deals) sum =
      sum_in currency deals (counted (deal.currency == currency) (number_of deal.value) sum)

  get-add_value :
      (currency other : String) (value : Option N) (totals : List (String × N))
      → get other (add_value currency value totals)
        ≡ counted (currency == other) value (get other totals)
  unfolding add_value counted
  get-add_value currency other none totals = refl
  get-add_value currency other (some value) totals = elim (Bool-cases (currency == other)) [
    | inl same ↦ rw (get-set, same, (eq_iff currency other).0 same) refl
    | inr apart ↦ rw (get-set, apart) refl
  ]

  get-add_deals :
      (currency : String) (deals : List Deal) (totals : List (String × N))
      → get currency (add_deals deals totals) ≡ sum_in currency deals (get currency totals)
  unfolding add_deals sum_in
  get-add_deals currency [] totals = refl
  get-add_deals currency (deal ∷ deals) totals =
      get-add_deals currency deals (add_value deal.currency (number_of deal.value) totals)
      ∙ ap (sum_in currency deals)
          (get-add_value deal.currency currency (number_of deal.value) totals)

  get-take :
      (n : ℕ) (currency : String) (total : N) (totals : List (String × N))
      → get currency (take n totals) ≡ some total
      → get currency totals ≡ some total
  unfolding get take
  get-take zero currency total totals h = cc
  get-take (suc n) currency total [] h = h
  get-take (suc n) currency total ((name, found) ∷ totals) h =
      ground (arith, get-take n currency total totals)

  length-take : (n : ℕ) (totals : List (String × N)) → length (take n totals) ≤ n
  unfolding take
  length-take zero totals = omega arith
  length-take (suc n) [] = omega arith
  length-take (suc n) (entry ∷ totals) = omega (arith, length-take n totals)

  -- The header of a stage shows at most two totals, and each that it shows is the sum of the values
  -- in its currency of all the stage's deals, added in their order, those without a number left out.
  pub stage_totals-sum :
      (deals : List Deal) (currency : String) (total : N)
      → get currency (stage_totals deals) ≡ some total
      → (length (stage_totals deals) ≤ 2) × (sum_in currency deals none ≡ some total)
  unfolding stage_totals get
  stage_totals-sum deals currency total h = (
    length-take 2 (add_deals deals []),
    sym (get-add_deals currency deals []) ∙ get-take 2 currency total (add_deals deals []) h,
  )
