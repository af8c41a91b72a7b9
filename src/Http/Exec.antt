-- ===== src/Http/Exec.antt =====
-- Handlers may throw and call the back end: they run over the calls made so far.
use enterprise_crm.Common.{
  true, false, ◌≡◌, refl, sym, subst, ◌⊎◌, inl, inr, ℕ, String, Bool, Option, none, some, List, [],
  ◌∷◌, ◌||◌, ltb, eqb, if◌then◌else◌,
}
use enterprise_crm.Http.Types.{
  Json, obj, str, field, end, json_body, NextResponse, Call, Settled, responds, rejects, Response,
}

pub data BackendRequestErrorKind : Type 0 where
  configuration invalid_response timeout unavailable : BackendRequestErrorKind

-- What is thrown: a `BackendRequestError`, or any other error.
pub data Thrown : Type 0 where
  backend_request_error : BackendRequestErrorKind → Thrown
  other_error : Thrown

pub data Result {ℓ} (A : Type ℓ) : Type ℓ where
  ok : A → Result A
  throw : Thrown → Result A

abbrev pub M : Type 0 → Type 0
M A = List Call → Result A × List Call

abbrev pub bind_result : {A B : Type 0} → Result A → List Call → (A → M B) → Result B × List Call
bind_result (ok a) log f = f a log
bind_result (throw e) log f = (throw e, log)

infixl 5 ◌>>=◌
abbrev pub ◌>>=◌ : {A B : Type 0} → M A → (A → M B) → M B
◌>>=◌ m f log = let r = m log in bind_result r.0 r.1 f

abbrev pub pure : {A : Type 0} → A → M A
pure a log = (ok a, log)

abbrev pub raise : {A : Type 0} → Thrown → M A
raise e log = (throw e, log)

abbrev pub lift : {A : Type 0} → Result A → M A
lift r log = (r, log)

abbrev pub or_throw : {A : Type 0} → Option A → Thrown → Result A
or_throw none e = throw e
or_throw (some a) e = ok a

-- `try { … } catch (error) { return … }` where the handler itself does nothing else.
abbrev pub recover : {A : Type 0} → Result A → (Thrown → A) → A
recover (ok a) h = a
recover (throw e) h = h e

unfoldable pub catch : {A : Type 0} → M A → (Thrown → A) → M A
catch m h log = let r = m log in (ok (recover r.0 h), r.1)

-- A response with a JSON body, where body and status are known to be allowed.
abbrev pub reply : Json → ℕ → NextResponse
reply body status = record {
  status = status;
  headers = ("content-type", "application/json") ∷ [];
  body = json_body body;
  cookies = [];
}

abbrev pub detail : String → Json
detail message = obj (field "detail" (str message) end)

abbrev pub is_null_body_status : ℕ → Bool
is_null_body_status s = eqb s 204 || eqb s 205 || eqb s 304

-- `NextResponse.json(payload, { status })`: `Response.json` throws a TypeError for `undefined`, and
-- for a status that allows no body.
unfoldable pub json_response : Option Json → ℕ → Result NextResponse
json_response none status = throw other_error
json_response (some payload) status =
    if is_null_body_status status then throw other_error else ok (reply payload status)

-- `fetch` under an abort timer of `limit` milliseconds: the response, or whether the timer fired.
pub data Fetched : Type 0 where
  fetched : Response → Fetched
  aborted failed : Fetched

unfoldable pub fetch : ℕ → Settled → Fetched
fetch limit (responds ms r) = if ltb ms limit then fetched r else aborted
fetch limit (rejects ms) = if ltb ms limit then failed else aborted

pub Result-cases {ℓ} :
    {A : Type ℓ} (r : Result A) → ((a : A) × (r ≡ ok a)) ⊎ ((e : Thrown) × (r ≡ throw e))
Result-cases (ok a) = inl (a, refl)
Result-cases (throw e) = inr (e, refl)

-- A property of what is returned, if nothing is thrown.
abbrev pub OnOk {κ} : {A : Type 0} → (A → Type κ) → Result A → Type κ
OnOk P (ok a) = P a
OnOk P (throw e) = Unit

pub OnOk-bind {κ} :
    {A B : Type 0} (P : B → Type κ) (r : Result A) (log : List Call) (f : A → M B)
    → ((a : A) (l : List Call) → OnOk P (f a l).0)
    → OnOk P (bind_result r log f).0
OnOk-bind P (ok a) log f h = h a log
OnOk-bind P (throw e) log f h = tt

pub OnOk-bind_eq {κ} :
    {A B : Type 0} (P : B → Type κ) (r : Result A) (log : List Call) (f : A → M B)
    → ((a : A) → r ≡ ok a → OnOk P (f a log).0)
    → OnOk P (bind_result r log f).0
OnOk-bind_eq P (ok a) log f h = h a refl
OnOk-bind_eq P (throw e) log f h = tt

pub OnOk-of_eq {κ} :
    {A : Type 0} (P : A → Type κ) (r : Result A) → ((a : A) → r ≡ ok a → P a) → OnOk P r
OnOk-of_eq P (ok a) h = h a refl
OnOk-of_eq P (throw e) h = tt

pub OnOk-if {κ} :
    {A : Type 0} (P : A → Type κ) (b : Bool) (x y : Result A)
    → OnOk P x
    → OnOk P y
    → OnOk P (if b then x else y)
OnOk-if P true x y h k = h
OnOk-if P false x y h k = k

pub OnOk-map {κ μ} :
    {A : Type 0} {P : A → Type κ} {Q : A → Type μ}
    → ((a : A) → P a → Q a)
    → (r : Result A) → OnOk P r
    → OnOk Q r
OnOk-map f (ok a) h = f a h
OnOk-map f (throw e) h = tt

pub OnOk-bind_of_ok {κ} :
    {A B : Type 0} (P : B → Type κ) (r : Result A) (log : List Call) (f : A → M B) (a : A)
    → r ≡ ok a
    → OnOk P (f a log).0
    → OnOk P (bind_result r log f).0
OnOk-bind_of_ok P r log f a e h = subst (λ r'. OnOk P (bind_result r' log f).0) (sym e) h

pub bind_result-throw :
    {A B : Type 0} (r : Result A) (log : List Call) (f : A → M B) (e : Thrown)
    → r ≡ throw e
    → (bind_result r log f).0 ≡ throw e
bind_result-throw (ok a) log f e h = cc
bind_result-throw (throw t) log f e h = cc

pub OnOk-use {κ} : {A : Type 0} (P : A → Type κ) (r : Result A) (a : A) → OnOk P r → r ≡ ok a → P a
OnOk-use P r a h e = subst (OnOk P) e h

-- Something is returned, and it has the property.
abbrev pub Returns : {A : Type 0} → (A → Type 0) → Result A → Type 0
Returns P (ok a) = P a
Returns P (throw e) = ⊥

pub Returns-recover :
    {A : Type 0} (P : A → Type 0) (r : Result A) (h : Thrown → A)
    → OnOk P r
    → ((e : Thrown) → r ≡ throw e → P (h e))
    → P (recover r h)
Returns-recover P (ok a) h good bad = good
Returns-recover P (throw e) h good bad = bad e refl

pub Returns-catch :
    {A : Type 0} (P : A → Type 0) (m : M A) (h : Thrown → A) (log : List Call)
    → OnOk P (m log).0
    → ((e : Thrown) → (m log).0 ≡ throw e → P (h e))
    → Returns P (catch m h log).0
unfolding catch
Returns-catch P m h log good bad = Returns-recover P (m log).0 h good bad

-- What comes out of a chain of steps came in at each of them.
pub >>=-eq-ok :
    {A B : Type 0} (r : Result A) (log : List Call) (f : A → M B) (b : B)
    → (bind_result r log f).0 ≡ ok b
    → (a : A) × (r ≡ ok a) × ((f a log).0 ≡ ok b)
>>=-eq-ok (ok a) log f b h = (a, refl, h)
>>=-eq-ok (throw e) log f b h = cc

pub >>=-eq-throw :
    {A B : Type 0} (r : Result A) (log : List Call) (f : A → M B) (e : Thrown)
    → (bind_result r log f).0 ≡ throw e
    → (r ≡ throw e) ⊎ ((a : A) × (r ≡ ok a) × ((f a log).0 ≡ throw e))
>>=-eq-throw (ok a) log f e h = inr (a, refl, h)
>>=-eq-throw (throw t) log f e h = inl (cc)

pub or_throw-eq-ok :
    {A : Type 0} (o : Option A) (e : Thrown) (a : A) → or_throw o e ≡ ok a → o ≡ some a
or_throw-eq-ok none e a h = cc
or_throw-eq-ok (some b) e a h = cc

pub or_throw-eq-throw :
    {A : Type 0} (o : Option A) (e t : Thrown) → or_throw o e ≡ throw t → (o ≡ none) × (t ≡ e)
or_throw-eq-throw none e t h = (refl, cc)
or_throw-eq-throw (some b) e t h = cc

pub Returns-map :
    {A : Type 0} (P Q : A → Type 0) (r : Result A)
    → ((a : A) → P a → Q a)
    → Returns P r
    → Returns Q r
Returns-map P Q (ok a) f h = f a h
Returns-map P Q (throw e) f h = h

pub bind_result-pure :
    {A B C : Type 0} (r : Result A) (log : List Call) (f : A → B) (g : B → M C)
    → (let s = bind_result r log (λ a. pure (f a)) in (bind_result s.0 s.1 g).0)
      ≡ (bind_result r log (λ a. g (f a))).0
bind_result-pure (ok a) log f g = refl
bind_result-pure (throw e) log f g = refl
