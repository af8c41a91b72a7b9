-- ===== src/Toasts/Runs.antt =====
-- frontend/src/components/ui/toast-provider.tsx: over every order of calls and timeouts, each toast on
-- the page goes when its time is up, and nothing else is left to run.
use enterprise_crm.Common.{◌≡◌, refl, ap, ℕ, suc, ◌+◌, some, List, [], ◌∷◌, arith, length}
use enterprise_crm.Toasts.{
  ToastInput, ToastItem, Timeout, Toaster, no_toasts, dismiss, notify, fire, unmount,
}
use enterprise_crm.Toasts.Matched.{Matched}
use enterprise_crm.Toasts.Timers.{
  IsTimed, find_timeout, dismiss-IsTimed, timer_of-find, notify-IsTimed, clear_timers-all,
  fire_items, fire-IsTimed,
}

-- What the pages, the reader and the window may do.
pub data Step (s : Toaster) : Toaster → Type 0 where
  notified : (input : ToastInput) → Step s (notify input s)
  dismissed : (id : ℕ) → Step s (dismiss id s)
  fired : (k : ℕ) (t : Timeout) → find_timeout k s.timeouts ≡ some t → Step s (fire t s)

pub data Reachable : Toaster → Type 0 where
  start : Reachable no_toasts
  step : {s t : Toaster} → Reachable s → Step s t → Reachable t

Step-IsTimed : (s t : Toaster) → Step s t → IsTimed s → IsTimed t
Step-IsTimed s t (notified input) h = notify-IsTimed input s h
Step-IsTimed s t (dismissed id) h = dismiss-IsTimed id s h
Step-IsTimed s t (fired k timeout found) h = fire-IsTimed k timeout s h found

-- In every state that the provider comes to, it shows at most four toasts, with growing ids, and its
-- Map and the window hold for each of them, and for nothing else, one timer: a timeout that will
-- dismiss this toast after its duration, which is at least 1200.
pub Reachable-IsTimed : (s : Toaster) → Reachable s → IsTimed s
Reachable-IsTimed s start = (omega arith, (omega arith, omega arith))
Reachable-IsTimed t (step {s} reached taken) = Step-IsTimed s t taken (Reachable-IsTimed s reached)

-- So many timeouts run, in any order.
pub data Fires : ℕ → Toaster → Toaster → Type 0 where
  done : (s : Toaster) → Fires 0 s s
  next :
      {n : ℕ} {s u : Toaster} (k : ℕ) (t : Timeout)
      → find_timeout k s.timeouts ≡ some t
      → Fires n (fire t s) u
      → Fires (suc n) s u

Fires-length :
    {n : ℕ} {s u : Toaster}
    → Fires n s u
    → IsTimed s
    → (n + length u.items ≡ length s.items) × IsTimed u
Fires-length (done s) h = (omega arith, h)
Fires-length (next {n} {s} {u} k t found rest) h =
    let fewer =
      timer_of-find s.next_toast_id s.next_handle 0 0 k t s.items s.timers s.timeouts found h.1 in
    let after = Fires-length rest (fire-IsTimed k t s h found) in
    (omega (arith, after.0, fewer.3, ap length (fire_items t s)), after.1)

Matched-lengths :
    (ni nh i h : ℕ) (items : List ToastItem) (timers : List (ℕ × ℕ)) (timeouts : List Timeout)
    → Matched ni nh i h items timers timeouts
    → (length timers ≡ length items) × (length timeouts ≡ length items)
Matched-lengths ni nh i h [] [] [] m = (refl, refl)
Matched-lengths ni nh i h (item ∷ items) ((l, timer) ∷ timers) (timeout ∷ timeouts) m =
    ground (arith, Matched-lengths ni nh (suc item.id) (suc timer) items timers timeouts)
Matched-lengths ni nh i h [] [] (t ∷ timeouts) m = absurd m
Matched-lengths ni nh i h [] (timer ∷ timers) timeouts m = absurd m
Matched-lengths ni nh i h (item ∷ items) [] timeouts m = absurd m
Matched-lengths ni nh i h (item ∷ items) (timer ∷ timers) [] m = absurd m

-- Whenever no more toasts are shown, all of them go: each timeout that runs, in whatever order, takes
-- one toast from the page and one timer from the Map and the window, so that while a toast is left
-- one more timeout can run, and when as many have run as there were toasts, nothing is left.
pub Fires-empties :
    (n : ℕ) (s u : Toaster)
    → Reachable s
    → Fires n s u
    → (n + length u.items ≡ length s.items)
      × (length u.timers ≡ length u.items)
      × (length u.timeouts ≡ length u.items)
Fires-empties n s u reached fires =
    let left = Fires-length fires (Reachable-IsTimed s reached) in
    let equal =
      Matched-lengths u.next_toast_id u.next_handle 0 0 u.items u.timers u.timeouts left.1.1 in
    (left.0, equal.0, equal.1)

-- When the provider goes from the page, the window holds none of its timeouts any more.
pub unmount-clears :
    (s : Toaster) → Reachable s → ((unmount s).timeouts ≡ []) × ((unmount s).timers ≡ [])
unfolding unmount
unmount-clears s reached =
    let timed = Reachable-IsTimed s reached in
    (clear_timers-all s.next_toast_id s.next_handle 0 0 s.items s.timers s.timeouts timed.1, refl)
