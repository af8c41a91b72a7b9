-- ===== src/Planner/Order.antt =====
-- frontend/src/features/planner/planner-workspace.tsx: the order of the items.
use enterprise_crm.Common.{
  ◌≡◌, refl, ◌∙◌, inl, inr, Bool, true, false, String, Option, none, some, List, [], ◌∷◌, filter,
  length, All, Bool-cases, arith, is_some, ℕ, ◌≤◌, ◌==◌, if◌then◌else◌,
}
use enterprise_crm.Planner.{
  Dates, PlannerItem, due_date_of, present, not_later, not_after, may_precede, insert_item,
  sort_items,
}

-- When an item is due, if it has a date.
abbrev pub due_at : Dates → Option String → Option ℕ
due_at dates none = none
due_at dates (some date) = if date == "" then none else dates.time_of date

-- The earlier of two times is first, and an item with a time stands before one without.
abbrev pub Precedes : Option ℕ → Option ℕ → Type 0
Precedes time none = Unit
Precedes none (some later) = false ≡ true
Precedes (some sooner) (some later) = sooner ≤ later

-- Each item stands before all that follow it, by the times of their dates.
abbrev pub IsInOrder : Dates → List PlannerItem → Type 0
IsInOrder dates [] = Unit
IsInOrder dates (item ∷ items) =
    All (λ other. Precedes (due_at dates (due_date_of item)) (due_at dates (due_date_of other)))
      items
    × IsInOrder dates items

-- The same by the program's comparison.
abbrev IsOrdered : Dates → List PlannerItem → Type 0
IsOrdered dates [] = Unit
IsOrdered dates (item ∷ items) =
    All (λ other. may_precede dates item other ≡ true) items × IsOrdered dates items

abbrev pub IsTimed : Dates → Option String → Type 0
IsTimed dates none = Unit
IsTimed dates (some date) = is_some (dates.time_of date) ≡ true

-- Every date that the items have is one.
abbrev pub AreTimed : Dates → List PlannerItem → Type 0
AreTimed dates = All (λ item. IsTimed dates (present (due_date_of item)))

module _ (dates : Dates) where
  not_after_trans :
      (a b c : Option String)
      → IsTimed dates a
      → IsTimed dates b
      → IsTimed dates c
      → not_after dates a b ≡ true
      → not_after dates b c ≡ true
      → not_after dates a c ≡ true
  not_after_trans a b none ta tb tc h k = refl
  not_after_trans none none (some c) ta tb tc h k = k
  not_after_trans none (some b) (some c) ta tb tc h k = absurd (ground arith)
  not_after_trans (some a) none (some c) ta tb tc h k = absurd (ground arith)
  not_after_trans (some a) (some b) (some c) ta tb tc h k = ground arith

  not_after_total :
      (a b : Option String)
      → IsTimed dates a
      → IsTimed dates b
      → not_after dates a b ≡ false
      → not_after dates b a ≡ true
  not_after_total none b ta tb h = refl
  not_after_total (some a) none ta tb h = absurd (ground arith)
  not_after_total (some a) (some b) ta tb h = ground arith

  All-insert_item :
      (P : PlannerItem → Type 0) (item : PlannerItem) (items : List PlannerItem)
      → P item
      → All P items
      → All P (insert_item dates item items)
  unfolding insert_item
  All-insert_item P item [] p ps = (p, tt)
  All-insert_item P item (first ∷ items) p ps = ground (arith, All-insert_item P item items)

  All-may_precede :
      (item first : PlannerItem) (items : List PlannerItem)
      → IsTimed dates (present (due_date_of item))
      → IsTimed dates (present (due_date_of first))
      → AreTimed dates items
      → may_precede dates item first ≡ true
      → All (λ other. may_precede dates first other ≡ true) items
      → All (λ other. may_precede dates item other ≡ true) items
  unfolding may_precede
  All-may_precede item first [] ti tf ts h ps = tt
  All-may_precede item first (other ∷ items) ti tf ts h ps = (
    not_after_trans (present (due_date_of item)) (present (due_date_of first))
        (present (due_date_of other)) ti tf ts.0 h ps.0,
    All-may_precede item first items ti tf ts.1 h ps.1,
  )

  insert_item-IsOrdered :
      (item : PlannerItem) (items : List PlannerItem)
      → IsTimed dates (present (due_date_of item))
      → AreTimed dates items
      → IsOrdered dates items
      → IsOrdered dates (insert_item dates item items)
  unfolding insert_item
  insert_item-IsOrdered item [] ti ts o = (tt, tt)
  insert_item-IsOrdered item (first ∷ items) ti ts o =
      elim (Bool-cases (may_precede dates item first)) [
        | inl before ↦
            rw before ((before, All-may_precede item first items ti ts.0 ts.1 before o.0), o)
        | inr behind ↦
            let ahead =
              not_after_total (present (due_date_of item)) (present (due_date_of first)) ti ts.0
                (unfold may_precede in behind) in
            rw behind (
              All-insert_item (λ other. may_precede dates first other ≡ true) item items
                  (unfold may_precede in ahead) o.0,
              insert_item-IsOrdered item items ti ts.1 o.1,
            )
      ]

  sort_items-AreTimed :
      (items : List PlannerItem) → AreTimed dates items → AreTimed dates (sort_items dates items)
  unfolding sort_items
  sort_items-AreTimed [] ts = tt
  sort_items-AreTimed (item ∷ items) ts =
      All-insert_item (λ other. IsTimed dates (present (due_date_of other))) item
        (sort_items dates items) ts.0 (sort_items-AreTimed items ts.1)

  sort_items-IsOrdered :
      (items : List PlannerItem) → AreTimed dates items → IsOrdered dates (sort_items dates items)
  unfolding sort_items
  sort_items-IsOrdered [] ts = tt
  sort_items-IsOrdered (item ∷ items) ts =
      insert_item-IsOrdered item (sort_items dates items) ts.0 (sort_items-AreTimed items ts.1)
        (sort_items-IsOrdered items ts.1)

  filter-insert_item :
      (p : PlannerItem → Bool) (item : PlannerItem) (items : List PlannerItem)
      → length (filter p (insert_item dates item items)) ≡ length (filter p (item ∷ items))
  unfolding insert_item filter
  filter-insert_item p item [] = refl
  filter-insert_item p item (first ∷ items) = ground (arith, filter-insert_item p item items)

  filter-sort_items :
      (p : PlannerItem → Bool) (items : List PlannerItem)
      → length (filter p (sort_items dates items)) ≡ length (filter p items)
  unfolding sort_items filter
  filter-sort_items p [] = refl
  filter-sort_items p (item ∷ items) =
      filter-insert_item p item (sort_items dates items) ∙ ground (arith, filter-sort_items p items)

  not_later-Precedes :
      (sooner later : Option ℕ)
      → is_some sooner ≡ true
      → is_some later ≡ true
      → not_later dates sooner later ≡ true
      → Precedes sooner later
  not_later-Precedes none later hs hl h = absurd (ground arith)
  not_later-Precedes (some l) none hs hl h = tt
  not_later-Precedes (some l) (some r) hs hl h = ground arith

  abbrev time_of_date : Option String → Option ℕ
  time_of_date none = none
  time_of_date (some date) = dates.time_of date

  due_at-present : (date : Option String) → due_at dates date ≡ time_of_date (present date)
  due_at-present none = refl
  due_at-present (some date) = elim (Bool-cases (date == "")) [
    | inl empty ↦ rw empty refl
    | inr filled ↦ rw filled refl
  ]

  present-Precedes :
      (a b : Option String)
      → IsTimed dates a
      → IsTimed dates b
      → not_after dates a b ≡ true
      → Precedes (time_of_date a) (time_of_date b)
  present-Precedes a none ta tb h = tt
  present-Precedes none (some b) ta tb h = absurd (ground arith)
  present-Precedes (some a) (some b) ta tb h =
      not_later-Precedes (dates.time_of a) (dates.time_of b) ta tb h

  not_after-Precedes :
      (a b : Option String)
      → IsTimed dates (present a)
      → IsTimed dates (present b)
      → not_after dates (present a) (present b) ≡ true
      → Precedes (due_at dates a) (due_at dates b)
  not_after-Precedes a b ta tb h =
      rw (due_at-present a, due_at-present b) (present-Precedes (present a) (present b) ta tb h)

  All-Precedes :
      (item : PlannerItem) (items : List PlannerItem)
      → IsTimed dates (present (due_date_of item))
      → AreTimed dates items
      → All (λ other. may_precede dates item other ≡ true) items
      → All
          (λ other. Precedes (due_at dates (due_date_of item)) (due_at dates (due_date_of other)))
          items
  unfolding may_precede
  All-Precedes item [] ti ts ps = tt
  All-Precedes item (other ∷ items) ti ts ps = (
    not_after-Precedes (due_date_of item) (due_date_of other) ti ts.0 ps.0,
    All-Precedes item items ti ts.1 ps.1,
  )

  IsOrdered-IsInOrder :
      (items : List PlannerItem)
      → AreTimed dates items
      → IsOrdered dates items
      → IsInOrder dates items
  IsOrdered-IsInOrder [] ts o = tt
  IsOrdered-IsInOrder (item ∷ items) ts o =
      (All-Precedes item items ts.0 ts.1 o.0, IsOrdered-IsInOrder items ts.1 o.1)

  -- If every date that is there is one, each item of the planner's list stands before all that follow
  -- it: it is not due later than these, and where it has no date they have none. The list holds the
  -- items that were loaded and no others: as many of them satisfy any test.
  pub sort_items-Sorts :
      (items : List PlannerItem) (p : PlannerItem → Bool)
      → AreTimed dates items
      → IsInOrder dates (sort_items dates items)
        × (length (filter p (sort_items dates items)) ≡ length (filter p items))
  sort_items-Sorts items p ts = (
    IsOrdered-IsInOrder (sort_items dates items) (sort_items-AreTimed items ts)
        (sort_items-IsOrdered items ts),
    filter-sort_items p items,
  )
