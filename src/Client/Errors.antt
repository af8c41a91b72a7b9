-- ===== src/Client/Errors.antt =====
-- api-client.ts: every error has a message.
use enterprise_crm.Common.{
  ℕ, String, Bool, true, false, Option, none, some, or_else, eqb, leb, ◌==◌, refl, ◌≢◌, inl, inr,
  if◌then◌else◌, Bool-cases,
}
use enterprise_crm.Common.Text.{trim, ne_of_test}
use enterprise_crm.Http.{
  Json, null, bool, num, str, arr, obj, Items, nil, cons, Fields, end, field, truthy,
}
use enterprise_crm.Client.Messages.{
  Value, undefined, json_value, text_value, get_error_message, first_message, message_at,
  or_else_try, message_of, error_text, default_error_message,
}

-- A message, if there is one, is not empty.
abbrev IsFilled : Option String → Type 0
IsFilled none = Unit
IsFilled (some message) = message ≢ ""

truthy-IsFilled : (o : Option String) → IsFilled (truthy o)
truthy-IsFilled none = tt
truthy-IsFilled (some s) = elim (Bool-cases (s == "")) [
  | inl blank ↦ rw blank tt
  | inr filled ↦ rw filled (ne_of_test s "" filled)
]

or_else_try-IsFilled : (a b : Option String) → IsFilled a → IsFilled b → IsFilled (or_else_try a b)
or_else_try-IsFilled none b h k = k
or_else_try-IsFilled (some a) b h k = h

elim-IsFilled :
    (b : Bool) (x y : Option String)
    → IsFilled x
    → IsFilled y
    → IsFilled (elim b [ true ↦ x | false ↦ y ])
elim-IsFilled true x y h k = h
elim-IsFilled false x y h k = k

mutual
  unfolding get_error_message

  get_error_message-IsFilled : (j : Json) → IsFilled (get_error_message j)
  get_error_message-IsFilled null = tt
  get_error_message-IsFilled (bool b) = tt
  get_error_message-IsFilled (num n) = tt
  get_error_message-IsFilled (str s) = truthy-IsFilled (some (trim s))
  get_error_message-IsFilled (arr items) = first_message-IsFilled items
  get_error_message-IsFilled (obj fields) =
      or_else_try-IsFilled (message_at "detail" fields) _ (message_at-IsFilled "detail" fields) (
        or_else_try-IsFilled (message_at "message" fields) _ (message_at-IsFilled "message" fields)
          (or_else_try-IsFilled (message_at "msg" fields) _ (message_at-IsFilled "msg" fields)
            (message_at-IsFilled "error" fields)))

  first_message-IsFilled : (items : Items) → IsFilled (first_message items)
  first_message-IsFilled nil = tt
  first_message-IsFilled (cons item items) =
      or_else_try-IsFilled (get_error_message item) (first_message items)
        (get_error_message-IsFilled item) (first_message-IsFilled items)

  message_at-IsFilled : (key : String) (fields : Fields) → IsFilled (message_at key fields)
  message_at-IsFilled key end = tt
  message_at-IsFilled key (field k value fields) =
      elim-IsFilled (k == key) (get_error_message value) (message_at key fields)
        (get_error_message-IsFilled value) (message_at-IsFilled key fields)

message_of-IsFilled : (body : Value) → IsFilled (message_of body)
message_of-IsFilled undefined = tt
message_of-IsFilled (json_value j) = get_error_message-IsFilled j
message_of-IsFilled (text_value s) = get_error_message-IsFilled (str s)

if_filled : (b : Bool) (s t : String) → s ≢ "" → t ≢ "" → (if b then s else t) ≢ ""
if_filled true s t h k = h
if_filled false s t h k = k

pub default_error_message_filled : (status : ℕ) → default_error_message status ≢ ""
default_error_message_filled status = if_filled (eqb status 0) _ _ (ne_of_test _ "" refl) (
    if_filled (eqb status 401) _ _ (ne_of_test _ "" refl) (
      if_filled (eqb status 403) _ _ (ne_of_test _ "" refl) (
        if_filled (eqb status 404) _ _ (ne_of_test _ "" refl) (
          if_filled (eqb status 429) _ _ (ne_of_test _ "" refl)
            (if_filled (leb 500 status) _ _ (ne_of_test _ "" refl) (ne_of_test _ "" refl))))))

or_else_filled : (o : Option String) (s : String) → IsFilled o → s ≢ "" → or_else o s ≢ ""
or_else_filled none s h k = k
or_else_filled (some a) s h k = h

pub error_text_filled : (body : Value) (status : ℕ) → error_text body status ≢ ""
error_text_filled body status =
    or_else_filled (message_of body) _ (message_of-IsFilled body)
      (default_error_message_filled status)
