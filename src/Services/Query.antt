-- ===== src/Services/Query.antt =====
-- frontend/src/utils/query-string.ts: the query of a list.
use Prim.Native.Char.{code}
use enterprise_crm.Common.{
  ◌≡◌, ◌≤◌, arith, Bool-cases, inl, inr, refl, ℕ, zero, suc, ◌/◌, ◌%◌, String, ◌<>◌, Bool, true,
  false, List, [], ◌∷◌, ltb, eqb, ◌==◌, ◌||◌, if◌then◌else◌,
}
use enterprise_crm.Common.Text.{in_range, escape_utf8, percent, digit_at}

-- `QueryValue`; the numbers that the program passes are page numbers and sizes.
pub data QueryValue : Type 0 where
  missing : QueryValue
  flag : Bool → QueryValue
  number : ℕ → QueryValue
  words : String → QueryValue

-- A number's decimal digits; there are at most as many as the number's value, and one.
unfoldable pub decimal : ℕ → ℕ → String → String
unfolding digit_at
decimal zero n rest = String.◌∷◌ (digit_at "0123456789" (n % 10)) rest
decimal (suc fuel) n rest =
    let shown = String.◌∷◌ (digit_at "0123456789" (n % 10)) rest in
    elim (ltb n 10) [ true ↦ shown | false ↦ decimal fuel (n / 10) shown ]

-- As many steps as the number's value are enough: more give the same digits.
decimal_enough :
    (fuel n : ℕ) (rest : String) → n ≤ fuel → decimal (suc fuel) n rest ≡ decimal fuel n rest
unfolding decimal
decimal_enough zero n rest h = ground arith
decimal_enough (suc fuel) n rest h = elim (Bool-cases (ltb n 10)) [
  | inl small ↦ rw (small, decimal)
  | inr large ↦ rw (large, decimal) (decimal_enough fuel (n / 10) _ (omega arith))
]

-- What `URLSearchParams` writes as it is.
unfoldable pub is_form_char : ℕ → Bool
is_form_char n =
    in_range b'a' b'z' n
    || in_range b'A' b'Z' n
    || in_range b'0' b'9' n
    || eqb n b'*'
    || in_range b'-' b'.' n
    || eqb n b'_'

-- The text of a name or a value in a form's encoding.
unfoldable pub form_encode : String → String
unfolding is_form_char
form_encode String.[] = String.[]
form_encode (String.◌∷◌ c s) =
    let rest = form_encode s in
    if is_form_char (code c)
    then String.◌∷◌ c rest
    else if eqb (code c) b' '
    then String.◌∷◌ "+" rest
    else escape_utf8 (code c) rest

-- `String(value)`, for a value that is written at all.
abbrev pub written : QueryValue → List String
written missing = []
written (flag b) = (if b then "true" else "false") ∷ []
written (number n) = decimal n n "" ∷ []
written (words s) = if s == "" then [] else s ∷ []

abbrev pub entry_of : String → List String → List String
entry_of key [] = []
entry_of key (value ∷ values) = (form_encode key <> "=" <> form_encode value) ∷ []

-- The entries of an object, whose keys are distinct.
unfoldable pub entries_of : List (String × QueryValue) → List String
unfolding form_encode decimal
entries_of [] = []
entries_of ((key, value) ∷ values) = elim (entry_of key (written value)) [
  | [] ↦ entries_of values
  | entry ∷ _ ↦ entry ∷ entries_of values
]

unfoldable pub join_entries : List String → String
join_entries [] = ""
join_entries (entry ∷ []) = entry
join_entries (entry ∷ next ∷ entries) = entry <> "&" <> join_entries (next ∷ entries)

abbrev pub with_mark : String → String
with_mark query = if query == "" then "" else "?" <> query

unfoldable pub to_query_string : List (String × QueryValue) → String
unfolding entries_of join_entries
to_query_string values = with_mark (join_entries (entries_of values))

query_sample :
    to_query_string
      (("page", number 12) ∷ ("q", words "a b&c") ∷ ("owner", missing) ∷ ("done", flag true) ∷ [])
    ≡ "?page=12&q=a+b%26c&done=true"
unfolding to_query_string escape_utf8 percent
query_sample = refl
