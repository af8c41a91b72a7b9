-- ===== src/Tests/Hooks.antt =====
-- The theorem on loads, on a page whose first load settles after its second.
use enterprise_crm.Common.{ℕ, true, ◌≡◌, refl}
use enterprise_crm.Hooks.{
  content, Hook, initial, clean_up, set_load, begin_load, finish_load, waiting, Reachable, start,
  step, began, finished,
}
use enterprise_crm.Hooks.Laws.{Stands, Reachable-Stands}

abbrev twice_begun : Hook ℕ
twice_begun = begin_load (clean_up (begin_load (clean_up (initial 0))))

-- The second load, then the first one.
abbrev overtaken : Hook ℕ
overtaken = finish_load "failed" 0 (content 10) (finish_load "failed" 1 (content 20) twice_begun)

second_waits : twice_begun.loads 1 ≡ waiting
unfolding begin_load clean_up set_load
second_waits = refl

first_waits : (finish_load "failed" 1 (content 20) twice_begun).loads 0 ≡ waiting
unfolding begin_load clean_up set_load finish_load
first_waits = refl

overtaken-Reachable : Reachable "failed" 0 overtaken
overtaken-Reachable =
    step (step (step (step start began) began) (finished 1 (content 20) second_waits))
      (finished 0 (content 10) first_waits)

second_active : overtaken.is_active 1 ≡ true
unfolding begin_load clean_up set_load finish_load
second_active = refl

Reachable-Stands_example : (2 ≡ overtaken.next) × Stands "failed" (overtaken.loads 1) overtaken
Reachable-Stands_example = Reachable-Stands "failed" 0 overtaken 1 overtaken-Reachable second_active
