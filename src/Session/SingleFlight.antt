-- ===== src/Session/SingleFlight.antt =====
-- shared.ts: `refreshRequests`, by which the requests of one session share a refresh of its token.
pub mod Laws
pub mod Settled
use enterprise_crm.Common.{
  ℕ, suc, String, Bool, true, false, Option, none, some, ◌==◌, ◌≡◌, eqb, if◌then◌else◌,
}
use enterprise_crm.Http.{Result}
use enterprise_crm.Session.Backend.{BackendTokenResponse}

-- What `performRefreshAccessToken` may come to.
abbrev pub Outcome : Type 0
Outcome = Result (Option BackendTokenResponse)

-- A promise of the map, and how far the caller that made it has come: it awaits the promise, the
-- promise has settled, or the caller has run its `finally` as well.
pub data Flight : Type 0 where
  unused : Flight
  pending : String → Flight
  settled left : String → Outcome → Flight

pub record Flights : Type 0 where
  pub requests : String → Option ℕ
  pub flights : ℕ → Flight
  pub next : ℕ

-- `refreshRequests.set`, `refreshRequests.delete`, and a promise's change.
unfoldable pub put : String → Option ℕ → (String → Option ℕ) → String → Option ℕ
put token p requests t = if t == token then p else requests t

unfoldable pub update : ℕ → Flight → (ℕ → Flight) → ℕ → Flight
update p f flights q = if eqb q p then f else flights q

abbrev pub no_flights : Flights
no_flights = record { requests = λ _. none; flights = λ _. unused; next = 0 }

-- The first lines of `refreshAccessToken`, up to its `await`: the promise that the caller awaits.
unfoldable pub enter_with : String → Flights → Option ℕ → ℕ × Flights
unfolding put update
enter_with token s (some p) = (p, s)
enter_with token s none = (
  s.next,
  record {
    requests = put token (some s.next) s.requests;
    flights = update s.next (pending token) s.flights;
    next = suc s.next;
  },
)

unfoldable pub enter : String → Flights → ℕ × Flights
unfolding enter_with
enter token s = enter_with token s (s.requests token)

-- The call has come to its end; a promise settles once.
abbrev pub settle_flight : Flight → Outcome → Flight
settle_flight (pending token) o = settled token o
settle_flight f o = f

unfoldable pub settle : ℕ → Outcome → Flights → Flights
unfolding update
settle p o s = record s { flights = update p (settle_flight (s.flights p) o) s.flights }

abbrev pub is_promise : Option ℕ → ℕ → Bool
is_promise none p = false
is_promise (some q) p = eqb q p

-- The `finally` block of the caller that made the promise.
unfoldable pub leave_with : ℕ → Flights → Flight → Flights
unfolding put update
leave_with p s (settled token o) = record s {
  requests = if is_promise (s.requests token) p then put token none s.requests else s.requests;
  flights = update p (left token o) s.flights;
}
leave_with p s f = s

unfoldable pub leave : ℕ → Flights → Flights
unfolding leave_with
leave p s = leave_with p s (s.flights p)

-- What may happen next: a caller enters, a call ends, or the caller that made it resumes.
pub data Step (s : Flights) : Flights → Type 0 where
  entered : (token : String) → Step s (enter token s).1
  ended :
      (p : ℕ) (token : String) (o : Outcome) → s.flights p ≡ pending token → Step s (settle p o s)
  resumed :
      (p : ℕ) (token : String) (o : Outcome) → s.flights p ≡ settled token o → Step s (leave p s)

pub data Reachable : Flights → Type 0 where
  start : Reachable no_flights
  step : {s t : Flights} → Reachable s → Step s t → Reachable t
