-- ===== src/Planner/Agenda.antt =====
-- frontend/src/features/planner/planner-workspace.tsx: what the buckets of the agenda hold.
use enterprise_crm.Common.{
  ◌≡◌, refl, sym, ap, ◌∙◌, inl, inr, ℕ, ◌+◌, String, Bool, true, false, not, ◌&&◌, ◌==◌, Option,
  none, some, is_some, List, [], ◌∷◌, ◌++◌, eqb, leb, ltb, if◌then◌else◌, filter, arith, Bool-cases,
}
use enterprise_crm.Planner.{
  Dates, PlannerItem, due_date_of, Bucket, overdue, today, week, later, unscheduled, due_time,
  bucket_of_day, bucket_for, Grouped, no_groups, push_into, group_items,
}
use enterprise_crm.Planner.Order.{due_at}
use mathlib.Core.List.{append_assoc, append-nil}

abbrev pub rank : Bucket → ℕ
rank overdue = 0
rank today = 1
rank week = 2
rank later = 3
rank unscheduled = 4

abbrev pub items_in : Bucket → Grouped → List PlannerItem
items_in overdue groups = groups.overdue_items
items_in today groups = groups.today_items
items_in week groups = groups.week_items
items_in later groups = groups.later_items
items_in unscheduled groups = groups.unscheduled_items

-- `item` is the next one of the bucket, if it is for it.
after : Bool → PlannerItem → List PlannerItem → List PlannerItem
after here item items = if here then items ++ item ∷ [] else items

items_in-push_into :
    (c b : Bucket) (item : PlannerItem) (groups : Grouped)
    → items_in b (push_into c item groups) ≡ after (eqb (rank c) (rank b)) item (items_in b groups)
unfolding after
items_in-push_into c b item groups = ground arith

after-append :
    (here : Bool) (item : PlannerItem) (items rest : List PlannerItem)
    → after here item items ++ rest ≡ items ++ (if here then item ∷ rest else rest)
unfolding after
after-append true item items rest = append_assoc items (item ∷ []) rest
after-append false item items rest = refl

module _ (dates : Dates) (now : ℕ) where
  abbrev pub is_for : Bucket → PlannerItem → Bool
  is_for b item = eqb (rank (bucket_for dates (due_date_of item) now)) (rank b)

  items_in-group_items :
      (b : Bucket) (items : List PlannerItem) (groups : Grouped)
      → items_in b (group_items dates now items groups)
        ≡ items_in b groups ++ filter (is_for b) items
  unfolding group_items filter
  items_in-group_items b [] groups = sym (append-nil _)
  items_in-group_items b (item ∷ items) groups =
      let c = bucket_for dates (due_date_of item) now in
      items_in-group_items b items (push_into c item groups)
      ∙ ap (λ l. l ++ filter (is_for b) items) (items_in-push_into c b item groups)
      ∙ after-append (eqb (rank c) (rank b)) item (items_in b groups) (filter (is_for b) items)

  -- The test of the day that an item is due on.
  abbrev on_day : (ℕ → Bool) → Option ℕ → Bool
  on_day test none = false
  on_day test (some time) = test (dates.start_of_day time)

  -- The times that a bucket is meant for: those of a day before today, of today, of one of the seven
  -- days after it, of a day after these, and none.
  abbrev pub is_meant_for : Bucket → Option ℕ → Bool
  is_meant_for overdue due = on_day (λ day. ltb day (dates.start_of_day now)) due
  is_meant_for today due = on_day (λ day. eqb day (dates.start_of_day now)) due
  is_meant_for week due =
      on_day
        (λ day. ltb (dates.start_of_day now) day && leb day (dates.start_of_day now + 604800000))
        due
  is_meant_for later due = on_day (λ day. ltb (dates.start_of_day now + 604800000) day) due
  is_meant_for unscheduled due = not (is_some due)

  abbrev bucket_of_time : Option ℕ → Bucket
  bucket_of_time none = unscheduled
  bucket_of_time (some due) = bucket_of_day (dates.start_of_day due) (dates.start_of_day now)

  bucket_of_time-is_meant_for :
      (b : Bucket) (due : Option ℕ) → eqb (rank (bucket_of_time due)) (rank b) ≡ is_meant_for b due
  bucket_of_time-is_meant_for overdue none = refl
  bucket_of_time-is_meant_for today none = refl
  bucket_of_time-is_meant_for week none = refl
  bucket_of_time-is_meant_for later none = refl
  bucket_of_time-is_meant_for unscheduled none = refl
  bucket_of_time-is_meant_for overdue (some due) = ground arith
  bucket_of_time-is_meant_for today (some due) = ground arith
  bucket_of_time-is_meant_for week (some due) = ground arith
  bucket_of_time-is_meant_for later (some due) = ground arith
  bucket_of_time-is_meant_for unscheduled (some due) = ground arith

  due_time-at : (date : Option String) → due_time dates date ≡ due_at dates date
  unfolding due_time
  due_time-at none = refl
  due_time-at (some date) = elim (Bool-cases (date == "")) [
    | inl empty ↦ rw (empty, due_time) refl
    | inr filled ↦ rw (filled, due_time) refl
  ]

  bucket_chosen :
      (due : Option ℕ)
      → elim due [
        | none ↦ unscheduled
        | some time ↦ bucket_of_day (dates.start_of_day time) (dates.start_of_day now)
      ]
        ≡ bucket_of_time due
  bucket_chosen none = refl
  bucket_chosen (some due) = refl

  bucket_for-time :
      (date : Option String) → bucket_for dates date now ≡ bucket_of_time (due_at dates date)
  unfolding bucket_for
  bucket_for-time date = bucket_chosen (due_time dates date) ∙ ap bucket_of_time (due_time-at date)

  filter-is_for :
      (b : Bucket) (items : List PlannerItem)
      → filter (is_for b) items
        ≡ filter (λ item. is_meant_for b (due_at dates (due_date_of item))) items
  unfolding filter
  filter-is_for b [] = refl
  filter-is_for b (item ∷ items) =
      rw
        (
          bucket_for-time (due_date_of item),
          bucket_of_time-is_meant_for b (due_at dates (due_date_of item)),
          filter-is_for b items,
        )
        refl

  items_in-no_groups : (b : Bucket) → items_in b no_groups ≡ []
  items_in-no_groups overdue = refl
  items_in-no_groups today = refl
  items_in-no_groups week = refl
  items_in-no_groups later = refl
  items_in-no_groups unscheduled = refl

  -- Each bucket of the agenda holds exactly the items that it is meant for, in the order of the whole
  -- list: the overdue ones those due on a day before today, today's those due today, the week's those due
  -- on one of the seven days after it, the later ones those due after these, and the unscheduled ones
  -- those without a date that is one.
  pub group_items-filter :
      (b : Bucket) (items : List PlannerItem)
      → items_in b (group_items dates now items no_groups)
        ≡ filter (λ item. is_meant_for b (due_at dates (due_date_of item))) items
  group_items-filter b items =
      items_in-group_items b items no_groups
      ∙ ap (λ shown. shown ++ filter (is_for b) items) (items_in-no_groups b)
      ∙ filter-is_for b items
