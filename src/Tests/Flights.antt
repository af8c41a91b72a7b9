-- ===== src/Tests/Flights.antt =====
-- The theorems on shared refreshes, on two callers with one token.
use enterprise_crm.Common.{ℕ, String, none, some, ◌≡◌, refl, inl, inr, eqb, Bool-cases}
use enterprise_crm.Http.{ok}
use enterprise_crm.Session.SingleFlight.{
  unused, pending, settled, left, Flights, put, update, no_flights, enter, settle, leave, entered,
  ended, resumed, Reachable, start, step,
}
use enterprise_crm.Session.SingleFlight.Laws.{Runs, requests_released}
use enterprise_crm.Session.SingleFlight.Settled.{outcome_of}

-- One caller has entered; then its call was refused; then it has resumed.
abbrev called : Flights
called = (enter "t" no_flights).1

abbrev refused : Flights
refused = settle 0 (ok none) called

abbrev finished : Flights
finished = leave 0 refused

called-Reachable : Reachable called
called-Reachable = step start (entered "t")

called_pending : called.flights 0 ≡ pending "t"
unfolding enter update
called_pending = refl

both_pending : (enter "t" called).1.flights 0 ≡ pending "t"
unfolding enter update
both_pending = refl

second_pending : (enter "t" called).1.flights (enter "t" called).0 ≡ pending "t"
unfolding enter update put
second_pending = refl

refused-Reachable : Reachable refused
refused-Reachable = step called-Reachable (ended 0 "t" (ok none) called_pending)

refused_settled : refused.flights 0 ≡ settled "t" (ok none)
unfolding enter settle update
refused_settled = refl

finished-Reachable : Reachable finished
finished-Reachable = step refused-Reachable (resumed 0 "t" (ok none) refused_settled)

refused_outcome : outcome_of (refused.flights 0) ≡ some (ok none)
unfolding enter settle update
refused_outcome = refl

left_idle : {token : String} → ¬ Runs token (left "t" (ok none))
left_idle (inl e) = cc
left_idle (inr (o, e)) = cc

unused_idle : {token : String} → ¬ Runs token unused
unused_idle (inl e) = cc
unused_idle (inr (o, e)) = cc

finished_idle : (p : ℕ) (token : String) → ¬ Runs token (finished.flights p)
unfolding enter settle leave update
finished_idle p token = elim (Bool-cases (eqb p 0)) [
  | inl same ↦ rw (same, update) left_idle
  | inr other ↦ rw (other, update) unused_idle
]

requests_released_example : finished.requests "t" ≡ none
requests_released_example = requests_released finished finished-Reachable finished_idle "t"
