-- ===== src/Toasts.antt =====
-- frontend/src/components/ui/toast-provider.tsx: the messages that the pages show for a while. An
-- updater of the items runs at once; React may keep it until it draws, in the same order.
pub mod Matched
pub mod Timers
pub mod Runs
use enterprise_crm.Common.{
  ◌≡◌, refl, ℕ, zero, suc, ◌-◌, max, String, Bool, true, false, not, Option, none, some, List, [],
  ◌∷◌, ◌++◌, eqb, if◌then◌else◌, or_else, length, take, drop,
}

pub data ToastTone : Type 0 where
  error info success warning : ToastTone

-- A duration is a natural number of milliseconds; one below zero would be 1200 as zero is.
pub record ToastInput : Type 0 where
  pub title : String
  pub description : Option String
  pub duration : Option ℕ
  pub tone : Option ToastTone

pub record ToastItem : Type 0 where
  pub id : ℕ
  pub title : String
  pub description : Option String
  pub duration : ℕ
  pub tone : ToastTone

-- A call that `setTimeout` has put off: here always that of `dismiss` with a toast's id.
pub record Timeout : Type 0 where
  pub handle : ℕ
  pub toast_id : ℕ
  pub delay : ℕ

-- The provider's items and its Map of timers by the toasts' ids, the module's `nextToastId`, and the
-- window's timeouts, whose handles it never gives twice.
pub record Toaster : Type 0 where
  pub items : List ToastItem
  pub timers : List (ℕ × ℕ)
  pub next_toast_id : ℕ
  pub timeouts : List Timeout
  pub next_handle : ℕ

abbrev pub no_toasts : Toaster
no_toasts = record { items = []; timers = []; next_toast_id = 1; timeouts = []; next_handle = 1 }

unfoldable pub timer_of : ℕ → List (ℕ × ℕ) → Option ℕ
timer_of id [] = none
timer_of id ((j, timer) ∷ timers) = if eqb j id then some timer else timer_of id timers

-- `timersRef.current.delete(id)`
unfoldable pub delete : ℕ → List (ℕ × ℕ) → List (ℕ × ℕ)
delete id [] = []
delete id ((j, timer) ∷ timers) =
    let rest = delete id timers in if eqb j id then rest else (j, timer) ∷ rest

-- `timersRef.current.set(id, timer)`
unfoldable pub set_entry : ℕ → ℕ → List (ℕ × ℕ) → List (ℕ × ℕ)
set_entry id timer [] = (id, timer) ∷ []
set_entry id timer ((j, old) ∷ timers) =
    if eqb j id then (id, timer) ∷ timers else (j, old) ∷ set_entry id timer timers

unfoldable pub clear_timeout : ℕ → List Timeout → List Timeout
clear_timeout handle [] = []
clear_timeout handle (timeout ∷ timeouts) =
    let rest = clear_timeout handle timeouts in
    if eqb timeout.handle handle then rest else timeout ∷ rest

-- `clearTimeout` of what a Map may hold.
abbrev pub clear_if_set : Option ℕ → List Timeout → List Timeout
clear_if_set none timeouts = timeouts
clear_if_set (some handle) timeouts = clear_timeout handle timeouts

unfoldable pub without : ℕ → List ToastItem → List ToastItem
without id [] = []
without id (item ∷ items) =
    let rest = without id items in if eqb item.id id then rest else item ∷ rest

-- A toast's timer is cleared and forgotten.
unfoldable pub drop_timer : ℕ → Toaster → Toaster
unfolding timer_of delete clear_timeout
drop_timer id toaster = record toaster {
  timeouts = clear_if_set (timer_of id toaster.timers) toaster.timeouts;
  timers = delete id toaster.timers;
}

unfoldable pub dismiss : ℕ → Toaster → Toaster
unfolding drop_timer without
dismiss id toaster =
    let dropped = drop_timer id toaster in record dropped { items = without id dropped.items }

unfoldable pub drop_timers : List ToastItem → Toaster → Toaster
unfolding drop_timer
drop_timers [] toaster = toaster
drop_timers (item ∷ items) toaster = drop_timers items (drop_timer item.id toaster)

-- The updater of `notify`: the last four stay, and the timers of the others go.
unfoldable pub show : ToastItem → Toaster → Toaster
unfolding drop_timers drop take
show item toaster =
    let next = toaster.items ++ item ∷ [] in
    let dropped = drop_timers (take (length next - 4) next) toaster in
    record dropped { items = drop (length next - 4) next }

abbrev pub item_of : ℕ → ToastInput → ToastItem
item_of id input = record {
  id = id;
  title = input.title;
  description = input.description;
  duration = max 1200 (or_else input.duration 4200);
  tone = or_else input.tone info;
}

-- `setTimeout`, and the entry of the Map.
unfoldable pub set_timer : ToastItem → Toaster → Toaster
unfolding set_entry
set_timer item toaster = record toaster {
  timeouts =
      toaster.timeouts
      ++ record { handle = toaster.next_handle; toast_id = item.id; delay = item.duration } ∷ [];
  next_handle = suc toaster.next_handle;
  timers = set_entry item.id toaster.next_handle toaster.timers;
}

-- `notify`; the id that it returns is the `next_toast_id` of before.
unfoldable pub notify : ToastInput → Toaster → Toaster
unfolding show set_timer
notify input toaster =
    let item = item_of toaster.next_toast_id input in
    set_timer item (show item (record toaster { next_toast_id = suc toaster.next_toast_id }))

-- The window runs a timeout that is due, which it then no longer holds.
unfoldable pub fire : Timeout → Toaster → Toaster
unfolding dismiss clear_timeout
fire timeout toaster =
    dismiss timeout.toast_id
      (record toaster { timeouts = clear_timeout timeout.handle toaster.timeouts })

unfoldable pub clear_timers : List (ℕ × ℕ) → List Timeout → List Timeout
unfolding clear_timeout
clear_timers [] timeouts = timeouts
clear_timers ((id, timer) ∷ timers) timeouts = clear_timers timers (clear_timeout timer timeouts)

-- The cleanup of the provider's effect.
unfoldable pub unmount : Toaster → Toaster
unfolding clear_timers
unmount toaster = record toaster {
  timeouts = clear_timers toaster.timers toaster.timeouts;
  timers = [];
}
