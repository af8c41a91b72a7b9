-- ===== src/Toasts/Matched.antt =====
-- frontend/src/components/ui/toast-provider.tsx: toasts that each have their timer and their timeout.
use enterprise_crm.Common.{
  ◌≡◌, refl, inl, inr, ℕ, suc, ◌≤◌, ◌<◌, true, false, none, some, List, [], ◌∷◌, ◌++◌, eqb, arith,
  Bool-cases, Option-cases,
}
use enterprise_crm.Toasts.{
  ToastItem, Timeout, timer_of, delete, set_entry, clear_timeout, clear_if_set, without,
}

-- In the order in which they came, each toast has an entry of the Map and a timeout with the entry's
-- handle, which will dismiss it after its duration. The ids lie from `i` to below `ni`, the handles
-- from `h` to below `nh`, both in growing order.
abbrev pub Matched : (ni nh i h : ℕ) → List ToastItem → List (ℕ × ℕ) → List Timeout → Type 0
Matched ni nh i h [] [] [] = (i ≤ ni) × (h ≤ nh)
Matched ni nh i h (item ∷ items) ((j, timer) ∷ timers) (timeout ∷ timeouts) =
    (i ≤ item.id)
    × (j ≡ item.id)
    × (timeout.toast_id ≡ item.id)
    × (h ≤ timer)
    × (timeout.handle ≡ timer)
    × (timeout.delay ≡ item.duration)
    × (1200 ≤ item.duration)
    × Matched ni nh (suc item.id) (suc timer) items timers timeouts
Matched ni nh i h _ _ _ = ⊥

module _ (ni nh : ℕ) where
  pub weaken :
      (i h j k : ℕ) (items : List ToastItem) (timers : List (ℕ × ℕ)) (timeouts : List Timeout)
      → j ≤ i
      → k ≤ h
      → Matched ni nh i h items timers timeouts
      → Matched ni nh j k items timers timeouts
  weaken i h j k [] [] [] a b m = omega arith
  weaken i h j k (item ∷ items) ((l, timer) ∷ timers) (timeout ∷ timeouts) a b m = ground arith
  weaken i h j k [] [] (timeout ∷ timeouts) a b m = m
  weaken i h j k [] (timer ∷ timers) timeouts a b m = m
  weaken i h j k (item ∷ items) [] timeouts a b m = m
  weaken i h j k (item ∷ items) (timer ∷ timers) [] a b m = m

  pub absent :
      (i h j k : ℕ) (items : List ToastItem) (timers : List (ℕ × ℕ)) (timeouts : List Timeout)
      → j < i
      → k < h
      → Matched ni nh i h items timers timeouts
      → (without j items ≡ items)
        × (timer_of j timers ≡ none)
        × (delete j timers ≡ timers)
        × (clear_timeout k timeouts ≡ timeouts)
  unfolding without timer_of delete clear_timeout
  absent i h j k [] [] [] a b m = (refl, refl, refl, refl)
  absent i h j k (item ∷ items) ((l, timer) ∷ timers) (timeout ∷ timeouts) a b m =
      ground (arith, absent (suc item.id) (suc timer) j k items timers timeouts)
  absent i h j k [] [] (timeout ∷ timeouts) a b m = absurd m
  absent i h j k [] (timer ∷ timers) timeouts a b m = absurd m
  absent i h j k (item ∷ items) [] timeouts a b m = absurd m
  absent i h j k (item ∷ items) (timer ∷ timers) [] a b m = absurd m

  timer_above :
      (i h j k : ℕ) (items : List ToastItem) (timers : List (ℕ × ℕ)) (timeouts : List Timeout)
      → timer_of j timers ≡ some k
      → Matched ni nh i h items timers timeouts
      → h ≤ k
  unfolding timer_of
  timer_above i h j k [] [] [] e m = cc
  timer_above i h j k (item ∷ items) ((l, timer) ∷ timers) (timeout ∷ timeouts) e m =
      ground (arith, timer_above (suc item.id) (suc timer) j k items timers timeouts)
  timer_above i h j k [] [] (timeout ∷ timeouts) e m = absurd m
  timer_above i h j k [] (timer ∷ timers) timeouts e m = absurd m
  timer_above i h j k (item ∷ items) [] timeouts e m = absurd m
  timer_above i h j k (item ∷ items) (timer ∷ timers) [] e m = absurd m

  pub bounded :
      (i h : ℕ) (items : List ToastItem) (timers : List (ℕ × ℕ)) (timeouts : List Timeout)
      → Matched ni nh i h items timers timeouts
      → (i ≤ ni) × (h ≤ nh)
  bounded i h [] [] [] m = m
  bounded i h (item ∷ items) ((l, timer) ∷ timers) (timeout ∷ timeouts) m =
      ground (arith, bounded (suc item.id) (suc timer) items timers timeouts)
  bounded i h [] [] (timeout ∷ timeouts) m = absurd m
  bounded i h [] (timer ∷ timers) timeouts m = absurd m
  bounded i h (item ∷ items) [] timeouts m = absurd m
  bounded i h (item ∷ items) (timer ∷ timers) [] m = absurd m

  pub removed :
      (i h j : ℕ) (items : List ToastItem) (timers : List (ℕ × ℕ)) (timeouts : List Timeout)
      → Matched ni nh i h items timers timeouts
      → Matched ni nh i h
          (without j items)
          (delete j timers)
          (clear_if_set (timer_of j timers) timeouts)
  unfolding without timer_of delete clear_timeout
  removed i h j [] [] [] m = m
  removed i h j (item ∷ items) ((l, timer) ∷ timers) (timeout ∷ timeouts) m =
      let tail : Matched ni nh (suc item.id) (suc timer) items timers timeouts = ground arith in
      let rest = removed (suc item.id) (suc timer) j items timers timeouts tail in
      elim (Bool-cases (eqb item.id j)) [
        | inl hit ↦
            let l_hit : eqb l j ≡ true = ground arith in
            let own : eqb timeout.handle timer ≡ true = ground arith in
            let same =
              absent (suc item.id) (suc timer) j timer items timers timeouts (ground arith)
                (omega arith) tail in
            rw (hit, l_hit, own, same.0, same.2, same.3)
              (weaken (suc item.id) (suc timer) i h items timers timeouts (ground arith)
                (ground arith) tail)
        | inr miss ↦
            let l_miss : eqb l j ≡ false = ground arith in
            elim (Option-cases (timer_of j timers)) [
              | inl none_left ↦
                  let kept = rw none_left at rest in rw (miss, l_miss, none_left) (ground arith)
              | inr (k, found) ↦
                  let kept = rw found at rest in
                  let above =
                    timer_above (suc item.id) (suc timer) j k items timers timeouts found tail in
                  let other : eqb timeout.handle k ≡ false = ground arith in
                  rw (miss, l_miss, found, other) (ground arith)
            ]
      ]
  removed i h j [] [] (timeout ∷ timeouts) m = absurd m
  removed i h j [] (timer ∷ timers) timeouts m = absurd m
  removed i h j (item ∷ items) [] timeouts m = absurd m
  removed i h j (item ∷ items) (timer ∷ timers) [] m = absurd m

  pub appended :
      (i h : ℕ) (items : List ToastItem) (timers : List (ℕ × ℕ)) (timeouts : List Timeout)
      (item : ToastItem) (timeout : Timeout)
      → item.id ≡ ni
      → timeout.toast_id ≡ ni
      → timeout.handle ≡ nh
      → timeout.delay ≡ item.duration
      → 1200 ≤ item.duration
      → Matched ni nh i h items timers timeouts
      → Matched
          (suc ni)
          (suc nh)
          i
          h
          (items ++ item ∷ [])
          (set_entry ni nh timers)
          (timeouts ++ timeout ∷ [])
  unfolding set_entry
  appended i h [] [] [] item timeout e1 e2 e3 e4 e5 m = ground arith
  appended i h (first ∷ items) ((l, timer) ∷ timers) (t ∷ timeouts) item timeout e1 e2 e3 e4 e5 m =
      ground (
        arith,
        bounded (suc first.id) (suc timer) items timers timeouts,
        appended (suc first.id) (suc timer) items timers timeouts item timeout e1 e2 e3 e4 e5,
      )
  appended i h [] [] (timeout ∷ timeouts) item t e1 e2 e3 e4 e5 m = absurd m
  appended i h [] (timer ∷ timers) timeouts item t e1 e2 e3 e4 e5 m = absurd m
  appended i h (first ∷ items) [] timeouts item t e1 e2 e3 e4 e5 m = absurd m
  appended i h (first ∷ items) (timer ∷ timers) [] item t e1 e2 e3 e4 e5 m = absurd m
