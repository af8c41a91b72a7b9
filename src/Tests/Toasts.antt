-- ===== src/Tests/Toasts.antt =====
-- The theorems on toasts, on a provider that shows five, one after the other.
use enterprise_crm.Common.{◌≡◌, refl, ℕ, ◌+◌, none, some, length}
use enterprise_crm.Toasts.{ToastInput, Timeout, Toaster, no_toasts, success, notify, fire}
use enterprise_crm.Toasts.Timers.{IsTimed, find_timeout}
use enterprise_crm.Toasts.Runs.{
  Reachable, start, step, notified, done, next, Reachable-IsTimed, Fires-empties,
}

abbrev saved : ToastInput
saved = record { title = "Saved"; description = none; duration = some 500; tone = some success }

abbrev two_shown : Toaster
two_shown = notify saved (notify saved no_toasts)

abbrev five_shown : Toaster
five_shown = notify saved (notify saved (notify saved two_shown))

two_shown-Reachable : Reachable two_shown
two_shown-Reachable = step (step start (notified saved)) (notified saved)

five_shown-Reachable : Reachable five_shown
five_shown-Reachable =
    step (step (step two_shown-Reachable (notified saved)) (notified saved)) (notified saved)

abbrev held : ℕ → Timeout
held n = record { handle = n; toast_id = n; delay = 1200 }

second_held : find_timeout 2 two_shown.timeouts ≡ some (held 2)
unfolding find_timeout notify
second_held = refl

first_held : find_timeout 1 (fire (held 2) two_shown).timeouts ≡ some (held 1)
unfolding find_timeout notify fire
first_held = refl

Reachable-IsTimed_example : IsTimed five_shown
Reachable-IsTimed_example = Reachable-IsTimed five_shown five_shown-Reachable

abbrev none_shown : Toaster
none_shown = fire (held 1) (fire (held 2) two_shown)

Fires-empties_example :
    (2 + length none_shown.items ≡ length two_shown.items)
    × (length none_shown.timers ≡ length none_shown.items)
    × (length none_shown.timeouts ≡ length none_shown.items)
Fires-empties_example =
    Fires-empties 2 two_shown none_shown two_shown-Reachable
      (next 2 (held 2) second_held (next 1 (held 1) first_held (done none_shown)))
