-- ===== src/Session/SingleFlight/Laws.antt =====
-- shared.ts: what the map of refreshes guarantees, over every sequence of steps.
use enterprise_crm.Common.{
  ℕ, ◌≤◌, String, none, some, ◌≡◌, refl, ◌≢◌, ◌⊎◌, inl, inr, ap, ◌∙◌, subst, eq_iff, arith, eqb,
  Option-cases, Bool-cases,
}
use enterprise_crm.Session.SingleFlight.{
  Outcome, Flight, unused, pending, settled, Flights, put, update, no_flights, enter_with, enter,
  settle_flight, settle, leave_with, leave, Step, entered, ended, resumed, Reachable, start, step,
}

-- A flight that is not over, of this token.
abbrev pub Runs : String → Flight → Type 0
Runs token f = (f ≡ pending token) ⊎ ((o : Outcome) × (f ≡ settled token o))

pub record IsConsistent (s : Flights) : Type 0 where
  pub tracked : (p : ℕ) (token : String) → s.flights p ≡ pending token → s.requests token ≡ some p
  pub running : (p : ℕ) (token : String) → s.requests token ≡ some p → Runs token (s.flights p)
  pub fresh : (p : ℕ) → s.next ≤ p → s.flights p ≡ unused

no_flights-IsConsistent : IsConsistent no_flights
no_flights-IsConsistent = record {
  tracked = λ p token h. cc;
  running = λ p token h. cc;
  fresh = λ p h. refl;
}

started-IsConsistent :
    (token : String) (s : Flights)
    → IsConsistent s
    → s.requests token ≡ none
    → IsConsistent (enter_with token s none).1
unfolding enter_with put update
started-IsConsistent token s c h = record {
  tracked = λ p t e. ground (arith, eq_iff t token, c.tracked p t, c.fresh s.next);
  running = λ p t e. ground (arith, eq_iff t token, c.running p t, c.fresh s.next);
  fresh = λ p e. ground (arith, c.fresh p);
}

joined-IsConsistent :
    (token : String) (s : Flights) (p : ℕ)
    → IsConsistent s
    → IsConsistent (enter_with token s (some p)).1
unfolding enter_with
joined-IsConsistent token s p c = c

enter-IsConsistent :
    (token : String) (s : Flights) → IsConsistent s → IsConsistent (enter token s).1
unfolding enter
enter-IsConsistent token s c = elim (Option-cases (s.requests token)) [
  | inl h ↦ rw (h, enter) (started-IsConsistent token s c h)
  | inr (p, h) ↦ rw (h, enter) (joined-IsConsistent token s p c)
]

Runs-settle_flight :
    (token : String) (f : Flight) (o : Outcome) → Runs token f → Runs token (settle_flight f o)
Runs-settle_flight token f o (inl e) = inr (o, ap (λ x. settle_flight x o) e)
Runs-settle_flight token f o (inr (o', e)) = inr (o', ap (λ x. settle_flight x o) e)

settle-IsConsistent :
    (p : ℕ) (token : String) (o : Outcome) (s : Flights)
    → s.flights p ≡ pending token
    → IsConsistent s
    → IsConsistent (settle p o s)
unfolding settle update
settle-IsConsistent p token o s h c = record {
  tracked = λ q t e. ground (arith, c.tracked q t);
  running = λ q t e. elim (Bool-cases (eqb q p)) [
    | inl same ↦
        let at_p : q ≡ p = ground arith in
        rw (same, settle)
          (Runs-settle_flight t (s.flights p) o
            (subst (λ n. Runs t (s.flights n)) at_p (c.running q t e)))
    | inr other ↦ rw (other, settle) (c.running q t e)
  ];
  fresh = λ q e. ground (arith, c.fresh q);
}

kept :
    (p : ℕ) (token : String) (o : Outcome) (s : Flights) (t : String) (q : ℕ)
    → (leave_with p s (settled token o)).requests t ≡ some q
    → s.requests t ≡ some q
unfolding leave_with put
kept p token o s t q e = ground (arith, eq_iff t token)

settled-Runs :
    (t token : String) (o : Outcome) (f : Flight) → f ≡ settled token o → Runs t f → t ≡ token
settled-Runs t token o f e (inl e') = cc
settled-Runs t token o f e (inr (o', e')) = cc

removed :
    (p : ℕ) (token : String) (o : Outcome) (s : Flights)
    → s.flights p ≡ settled token o
    → IsConsistent s
    → (t : String) → (leave_with p s (settled token o)).requests t ≢ some p
unfolding leave_with put
removed p token o s h c t e =
    let same : s.requests t ≡ some p = kept p token o s t p e in
    let at_token : t ≡ token = settled-Runs t token o (s.flights p) h (c.running p t same) in
    ground (arith, eq_iff t token)

left-IsConsistent :
    (p : ℕ) (token : String) (o : Outcome) (s : Flights)
    → s.flights p ≡ settled token o
    → IsConsistent s
    → IsConsistent (leave_with p s (settled token o))
unfolding leave_with put update
left-IsConsistent p token o s h c = record {
  tracked = λ q t e. ground (arith, eq_iff t token, c.tracked q t);
  running = λ q t e. elim (Bool-cases (eqb q p)) [
    | inl same ↦
        let at_p : q ≡ p = ground arith in absurd (removed p token o s h c t (e ∙ ap some at_p))
    | inr other ↦ rw (other, leave_with) (c.running q t (kept p token o s t q e))
  ];
  fresh = λ q e. ground (arith, c.fresh q);
}

Step-IsConsistent : (s t : Flights) → Step s t → IsConsistent s → IsConsistent t
unfolding leave
Step-IsConsistent s t (entered token) c = enter-IsConsistent token s c
Step-IsConsistent s t (ended p token o h) c = settle-IsConsistent p token o s h c
Step-IsConsistent s t (resumed p token o h) c = rw (h, leave) (left-IsConsistent p token o s h c)

pub Reachable-IsConsistent : (s : Flights) → Reachable s → IsConsistent s
Reachable-IsConsistent s start = no_flights-IsConsistent
Reachable-IsConsistent t (step {s} r h) = Step-IsConsistent s t h (Reachable-IsConsistent s r)

-- In every reachable state, two calls that are pending for one refresh token are one call: the
-- back end never sees a token presented twice at a time by one process.
pub pending_once :
    (s : Flights) (token : String) (p q : ℕ)
    → Reachable s
    → s.flights p ≡ pending token
    → s.flights q ≡ pending token
    → p ≡ q
pending_once s token p q r h k =
    let c = Reachable-IsConsistent s r in ground (arith, c.tracked p token h, c.tracked q token k)

-- In every reachable state, a caller that enters with a token awaits a call for this token that is
-- not over.
pub enter-Runs :
    (s : Flights) (token : String)
    → Reachable s
    → Runs token ((enter token s).1.flights (enter token s).0)
unfolding enter enter_with update
enter-Runs s token r = elim (Option-cases (s.requests token)) [
  | inl h ↦ rw (h, enter) (inl (ground arith))
  | inr (p, h) ↦ rw (h, enter) ((Reachable-IsConsistent s r).running p token h)
]

-- In every reachable state in which no call is pending and every caller that made one has resumed,
-- the map of refreshes is empty.
pub requests_released :
    (s : Flights)
    → Reachable s
    → ((p : ℕ) (token : String) → ¬ Runs token (s.flights p))
    → (token : String) → s.requests token ≡ none
requests_released s r idle token = elim (Option-cases (s.requests token)) [
  | inl h ↦ h
  | inr (p, h) ↦ absurd (idle p token ((Reachable-IsConsistent s r).running p token h))
]
