-- ===== src/Toasts/Timers.antt =====
-- frontend/src/components/ui/toast-provider.tsx: every operation keeps a timer for each toast, and no
-- other.
use enterprise_crm.Common.{
  ◌≡◌, refl, ap, ℕ, suc, ◌≤◌, ◌-◌, true, Option, none, some, List, [], ◌∷◌, ◌++◌, eqb,
  if◌then◌else◌, arith, length, take, drop,
}
use enterprise_crm.Toasts.{
  ToastInput, ToastItem, Timeout, Toaster, timer_of, clear_timeout, without, drop_timer, dismiss,
  drop_timers, show, item_of, set_timer, notify, fire, clear_timers,
}
use enterprise_crm.Toasts.Matched.{Matched, absent, removed, appended}

-- The timeout with a handle, if the window holds one.
unfoldable pub find_timeout : ℕ → List Timeout → Option Timeout
find_timeout handle [] = none
find_timeout handle (timeout ∷ timeouts) =
    if eqb timeout.handle handle then some timeout else find_timeout handle timeouts

abbrev pub IsTimed : Toaster → Type 0
IsTimed s =
    (length s.items ≤ 4) × Matched s.next_toast_id s.next_handle 0 0 s.items s.timers s.timeouts

length-without : (id : ℕ) (items : List ToastItem) → length (without id items) ≤ length items
unfolding without
length-without id [] = omega arith
length-without id (item ∷ items) = ground (arith, length-without id items)

pub dismiss-IsTimed : (id : ℕ) (s : Toaster) → IsTimed s → IsTimed (dismiss id s)
unfolding dismiss drop_timer
dismiss-IsTimed id s h = (
  omega (arith, length-without id s.items),
  removed s.next_toast_id s.next_handle 0 0 id s.items s.timers s.timeouts h.1,
)

module _ (ni nh : ℕ) where
  without_first :
      (i h : ℕ) (item : ToastItem) (items : List ToastItem) (timers : List (ℕ × ℕ))
      (timeouts : List Timeout)
      → Matched ni nh i h (item ∷ items) timers timeouts
      → without item.id (item ∷ items) ≡ items
  unfolding without
  without_first i h item items [] timeouts m = absurd m
  without_first i h item items (timer ∷ timers) [] m = absurd m
  without_first i h item items ((l, timer) ∷ timers) (timeout ∷ timeouts) m =
      let a =
        absent ni nh (suc item.id) (suc timer) item.id timer items timers timeouts (omega arith)
          (omega arith) (ground arith) in
      ground (arith, a)

  -- The timeout with a handle belongs to the entry with this handle.
  pub timer_of-find :
      (i h k : ℕ) (t : Timeout) (items : List ToastItem) (timers : List (ℕ × ℕ))
      (timeouts : List Timeout)
      → find_timeout k timeouts ≡ some t
      → Matched ni nh i h items timers timeouts
      → (timer_of t.toast_id timers ≡ some k)
        × (t.handle ≡ k)
        × (i ≤ t.toast_id)
        × (suc (length (without t.toast_id items)) ≡ length items)
  unfolding find_timeout timer_of without
  timer_of-find i h k t [] [] [] e m = cc
  timer_of-find i h k t (item ∷ items) ((l, timer) ∷ timers) (timeout ∷ timeouts) e m =
      let tail : Matched ni nh (suc item.id) (suc timer) items timers timeouts = ground arith in
      let rest = timer_of-find (suc item.id) (suc timer) k t items timers timeouts in
      let a =
        absent ni nh (suc item.id) (suc timer) item.id timer items timers timeouts (omega arith)
          (omega arith) tail in
      ground (arith, rest, a)
  timer_of-find i h k t [] [] (timeout ∷ timeouts) e m = absurd m
  timer_of-find i h k t [] (timer ∷ timers) timeouts e m = absurd m
  timer_of-find i h k t (item ∷ items) [] timeouts e m = absurd m
  timer_of-find i h k t (item ∷ items) (timer ∷ timers) [] e m = absurd m

  pub clear_timers-all :
      (i h : ℕ) (items : List ToastItem) (timers : List (ℕ × ℕ)) (timeouts : List Timeout)
      → Matched ni nh i h items timers timeouts
      → clear_timers timers timeouts ≡ []
  unfolding clear_timers clear_timeout
  clear_timers-all i h [] [] [] m = refl
  clear_timers-all i h (item ∷ items) ((l, timer) ∷ timers) (timeout ∷ timeouts) m =
      let tail : Matched ni nh (suc item.id) (suc timer) items timers timeouts = ground arith in
      let own : eqb timeout.handle timer ≡ true = ground arith in
      let a =
        absent ni nh (suc item.id) (suc timer) item.id timer items timers timeouts (omega arith)
          (omega arith) tail in
      rw (own, a.3) (clear_timers-all (suc item.id) (suc timer) items timers timeouts tail)
  clear_timers-all i h [] [] (timeout ∷ timeouts) m = absurd m
  clear_timers-all i h [] (timer ∷ timers) timeouts m = absurd m
  clear_timers-all i h (item ∷ items) [] timeouts m = absurd m
  clear_timers-all i h (item ∷ items) (timer ∷ timers) [] m = absurd m

clear_timeout_twice :
    (k : ℕ) (timeouts : List Timeout)
    → clear_timeout k (clear_timeout k timeouts) ≡ clear_timeout k timeouts
unfolding clear_timeout
clear_timeout_twice k [] = refl
clear_timeout_twice k (t ∷ timeouts) = ground (arith, clear_timeout_twice k timeouts)

abbrev toaster_of : List ToastItem → List (ℕ × ℕ) → ℕ → List Timeout → ℕ → Toaster
toaster_of items timers ni timeouts nh = record {
  items = items;
  timers = timers;
  next_toast_id = ni;
  timeouts = timeouts;
  next_handle = nh;
}

-- What `show` leaves in front of the new toast.
abbrev Kept : ToastItem → ℕ → ℕ → Toaster → Type 0
Kept item ni nh t =
    (kept : List ToastItem) × (t.items ≡ kept ++ item ∷ [])
    × (length kept ≤ 3)
    × Matched ni nh 0 0 kept t.timers t.timeouts

module _ (item : ToastItem) (timers : List (ℕ × ℕ)) (n ni nh : ℕ) (timeouts : List Timeout) where
  show-Kept :
      (items : List ToastItem)
      → length items ≤ 4
      → Matched ni nh 0 0 items timers timeouts
      → Kept item ni nh (show item (toaster_of items timers n timeouts nh))
  unfolding show drop_timers drop_timer drop take
  show-Kept [] h m = ([], refl, omega arith, m)
  show-Kept (a ∷ []) h m = (a ∷ [], refl, omega arith, m)
  show-Kept (a ∷ b ∷ []) h m = (a ∷ b ∷ [], refl, omega arith, m)
  show-Kept (a ∷ b ∷ c ∷ []) h m = (a ∷ b ∷ c ∷ [], refl, omega arith, m)
  show-Kept (a ∷ b ∷ c ∷ d ∷ []) h m =
      let gone = removed ni nh 0 0 a.id (a ∷ b ∷ c ∷ d ∷ []) timers timeouts m in
      (
        b ∷ c ∷ d ∷ [],
        refl,
        omega arith,
        rw (without_first ni nh 0 0 a (b ∷ c ∷ d ∷ []) timers timeouts m) at gone,
      )
  show-Kept (a ∷ b ∷ c ∷ d ∷ x ∷ items) h m = absurd (omega arith)

-- The counters are left alone by `show`.
drop_timers_counters :
    (items : List ToastItem) (t : Toaster)
    → ((drop_timers items t).next_toast_id ≡ t.next_toast_id)
      × ((drop_timers items t).next_handle ≡ t.next_handle)
unfolding drop_timers drop_timer
drop_timers_counters [] t = (refl, refl)
drop_timers_counters (item ∷ items) t = drop_timers_counters items (drop_timer item.id t)

show_counters :
    (item : ToastItem) (t : Toaster)
    → ((show item t).next_toast_id ≡ t.next_toast_id) × ((show item t).next_handle ≡ t.next_handle)
unfolding show
show_counters item t =
    let next = t.items ++ item ∷ [] in drop_timers_counters (take (length next - 4) next) t

length-snoc :
    (items : List ToastItem) (item : ToastItem) → length (items ++ item ∷ []) ≡ suc (length items)
length-snoc [] item = refl
length-snoc (x ∷ items) item = ap suc (length-snoc items item)

set_timer-IsTimed :
    (item : ToastItem) (nh : ℕ) (t : Toaster)
    → t.next_toast_id ≡ suc item.id
    → t.next_handle ≡ nh
    → 1200 ≤ item.duration
    → Kept item item.id nh t
    → IsTimed (set_timer item t)
unfolding set_timer
set_timer-IsTimed item nh t e1 e2 long (kept, shown, few, matched) =
    rw (e1, e2, shown)
      (
        omega (arith, length-snoc kept item),
        appended item.id nh 0 0 kept t.timers t.timeouts item _ refl refl refl refl long matched,
      )

pub notify-IsTimed : (input : ToastInput) (s : Toaster) → IsTimed s → IsTimed (notify input s)
unfolding notify
notify-IsTimed input s h =
    let item = item_of s.next_toast_id input in
    let t = record s { next_toast_id = suc s.next_toast_id } in
    set_timer-IsTimed item s.next_handle (show item t) (show_counters item t).0
      (show_counters item t).1 (omega arith)
      (show-Kept item s.timers (suc s.next_toast_id) s.next_toast_id s.next_handle s.timeouts
        s.items h.0 h.1)

-- A timeout that runs does what its toast's button does.
fire-dismiss :
    (k : ℕ) (t : Timeout) (s : Toaster)
    → IsTimed s
    → find_timeout k s.timeouts ≡ some t
    → fire t s ≡ dismiss t.toast_id s
unfolding fire dismiss drop_timer
fire-dismiss k t s h found =
    let own =
      timer_of-find s.next_toast_id s.next_handle 0 0 k t s.items s.timers s.timeouts found h.1 in
    rw (own.0, own.1, clear_timeout_twice k s.timeouts) refl

pub fire_items : (t : Timeout) (s : Toaster) → (fire t s).items ≡ without t.toast_id s.items
unfolding fire dismiss drop_timer
fire_items t s = refl

pub fire-IsTimed :
    (k : ℕ) (t : Timeout) (s : Toaster)
    → IsTimed s
    → find_timeout k s.timeouts ≡ some t
    → IsTimed (fire t s)
fire-IsTimed k t s h found = rw (fire-dismiss k t s h found) (dismiss-IsTimed t.toast_id s h)
