-- ===== src/Session/SingleFlight/Settled.antt =====
-- shared.ts: what a shared refresh comes to, for all that await it.
use enterprise_crm.Common.{
  ℕ, String, Option, none, some, ◌≡◌, sym, inl, inr, ap, ◌∙◌, subst, arith, eqb, Option-cases,
  Bool-cases,
}
use enterprise_crm.Session.SingleFlight.{
  Outcome, Flight, pending, settled, left, Flights, update, enter_with, enter, settle_flight,
  settle, leave_with, leave, Step, entered, ended, resumed, Reachable,
}
use enterprise_crm.Session.SingleFlight.Laws.{IsConsistent, Reachable-IsConsistent}

-- What a call came to.
abbrev pub outcome_of : Flight → Option Outcome
outcome_of (settled token o) = some o
outcome_of (left token o) = some o
outcome_of _ = none

changed_kept :
    (q : ℕ) (f : Flight) (s : Flights) (p : ℕ) (o : Outcome)
    → (q ≡ p → outcome_of f ≡ some o)
    → outcome_of (s.flights p) ≡ some o
    → outcome_of (update q f s.flights p) ≡ some o
unfolding update
changed_kept q f s p o same h = elim (Bool-cases (eqb p q)) [
  | inl at_q ↦ let e : q ≡ p = ground arith in rw (at_q, update) (same e)
  | inr other ↦ rw (other, update) h
]

entered_kept :
    (token : String) (s : Flights)
    → IsConsistent s
    → (p : ℕ) (o : Outcome) → outcome_of (s.flights p) ≡ some o
    → outcome_of ((enter token s).1.flights p) ≡ some o
unfolding enter enter_with
entered_kept token s c p o h = elim (Option-cases (s.requests token)) [
  | inr (q, joined) ↦ rw (joined, enter) h
  | inl alone ↦
      rw (alone, enter)
        (changed_kept s.next (pending token) s p o
          (λ e.
            let never : outcome_of (s.flights p) ≡ none =
              ap outcome_of (c.fresh p (ground arith)) in
            cc (h, never))
          h)
]

ended_kept :
    (q : ℕ) (token : String) (o' : Outcome) (s : Flights) (p : ℕ) (o : Outcome)
    → s.flights q ≡ pending token
    → outcome_of (s.flights p) ≡ some o
    → outcome_of ((settle q o' s).flights p) ≡ some o
unfolding settle
ended_kept q token o' s p o pends h =
    changed_kept q (settle_flight (s.flights q) o') s p o
      (λ e.
        let at_q : outcome_of (s.flights q) ≡ some o =
          subst (λ n. outcome_of (s.flights n) ≡ some o) (sym e) h in
        let never : outcome_of (s.flights q) ≡ none = ap outcome_of pends in cc (at_q, never))
      h

resumed_kept :
    (q : ℕ) (token : String) (o' : Outcome) (s : Flights) (p : ℕ) (o : Outcome)
    → s.flights q ≡ settled token o'
    → outcome_of (s.flights p) ≡ some o
    → outcome_of ((leave q s).flights p) ≡ some o
unfolding leave leave_with
resumed_kept q token o' s p o done h =
    rw (done, leave)
      (changed_kept q (left token o') s p o
        (λ e.
          let at_q : outcome_of (s.flights q) ≡ some o =
            subst (λ n. outcome_of (s.flights n) ≡ some o) (sym e) h in
          sym (ap outcome_of done) ∙ at_q)
        h)

-- From a reachable state on, no step changes what a promise has settled with: all that await it get
-- the same outcome.
pub outcome_kept :
    (s t : Flights) (p : ℕ) (o : Outcome)
    → Reachable s
    → Step s t
    → outcome_of (s.flights p) ≡ some o
    → outcome_of (t.flights p) ≡ some o
outcome_kept s t p o r (entered token) h = entered_kept token s (Reachable-IsConsistent s r) p o h
outcome_kept s t p o r (ended q token o' pends) h = ended_kept q token o' s p o pends h
outcome_kept s t p o r (resumed q token o' done) h = resumed_kept q token o' s p o done h
