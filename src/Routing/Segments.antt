-- ===== src/Routing/Segments.antt =====
-- The segments of the paths that the services build.
use Prim.Native.Char.{Char, code}
use enterprise_crm.Common.{
  ◌≡◌, refl, ap, ◌∙◌, ◌≢◌, arith, String, ◌<>◌, Bool, true, false, List, [], ◌∷◌, eqb, not, ◌&&◌,
  ◌==◌, Bool-cases, inl, inr,
}
use text.Mathlib.TextLemmas.{nil-append, cons-append}
use enterprise_crm.Common.Text.{IsSegment}
use enterprise_crm.Services.Query.{to_query_string, QueryValue, entries_of, join_entries, with_mark}
use enterprise_crm.Routing.{push, segments}

-- The texts that come before, of which the last goes on with the first that comes after.
abbrev pub prepend : String → List String → List String
prepend String.[] ys = ys
prepend (String.◌∷◌ c s) ys = push c (prepend s ys)

abbrev pub glue : List String → List String → List String
glue [] ys = ys
glue (x ∷ []) ys = prepend x ys
glue (x ∷ y ∷ xs) ys = x ∷ glue (y ∷ xs) ys

push-glue : (c : Char) (xs ys : List String) → push c (glue xs ys) ≡ glue (push c xs) ys
push-glue c [] ys = refl
push-glue c (x ∷ []) ys = refl
push-glue c (x ∷ y ∷ xs) ys = refl

abbrev pub no_query : String → Bool
no_query String.[] = true
no_query (String.◌∷◌ c s) = not (eqb (code c) b'?') && no_query s

glue-nil :
    (xs : List String) (ys : List String)
    → xs ≢ []
    → String.[] ∷ glue xs ys ≡ glue (String.[] ∷ xs) ys
glue-nil [] ys h = absurd (h refl)
glue-nil (x ∷ xs) ys h = refl

push-some : (c : Char) (xs : List String) → push c xs ≢ []
push-some c [] h = cc
push-some c (x ∷ xs) h = cc

split-some :
    (query slash : Bool) (c : Char) (xs : List String)
    → elim query [
      | true ↦ String.[] ∷ []
      | false ↦ elim slash [ true ↦ String.[] ∷ xs | false ↦ push c xs ]
    ]
      ≢ []
split-some true slash c xs h = cc
split-some false true c xs h = cc
split-some false false c xs h = push-some c xs h

segments-some : (s : String) → segments s ≢ []
unfolding segments
segments-some String.[] = λ h. cc
segments-some (String.◌∷◌ c s) = split-some (eqb (code c) b'?') (eqb (code c) b'/') c (segments s)

split-glue :
    (query slash : Bool) (c : Char) (xs ys : List String)
    → query ≡ false
    → xs ≢ []
    → elim query [
      | true ↦ String.[] ∷ []
      | false ↦ elim slash [ true ↦ String.[] ∷ glue xs ys | false ↦ push c (glue xs ys) ]
    ]
      ≡ glue
          (elim query [
            | true ↦ String.[] ∷ []
            | false ↦ elim slash [ true ↦ String.[] ∷ xs | false ↦ push c xs ]
          ])
          ys
split-glue true slash c xs ys h k = cc
split-glue false true c xs ys h k = glue-nil xs ys k
split-glue false false c xs ys h k = push-glue c xs ys

split_at : Bool → Bool → Char → List String → List String
split_at query slash c xs = elim query [
  | true ↦ String.[] ∷ []
  | false ↦ elim slash [ true ↦ String.[] ∷ xs | false ↦ push c xs ]
]

-- The segments of a text without a query go on with those of what follows.
pub segments-append :
    (p s : String) → no_query p ≡ true → segments (p <> s) ≡ glue (segments p) (segments s)
unfolding segments split_at
segments-append String.[] s h = rw nil-append refl
segments-append (String.◌∷◌ c p) s h =
    let plain : eqb (code c) b'?' ≡ false = ground arith in
    let rest : no_query p ≡ true = ground arith in
    rw cons-append (
      ap (split_at (eqb (code c) b'?') (eqb (code c) b'/') c) (segments-append p s rest)
      ∙ split-glue (eqb (code c) b'?') (eqb (code c) b'/') c (segments p) (segments s) plain
          (segments-some p))

split_plain :
    (query slash : Bool) (c : Char) (s : String)
    → query ≡ false
    → slash ≡ false
    → split_at query slash c (s ∷ []) ≡ String.◌∷◌ c s ∷ []
unfolding split_at
split_plain query slash c s h k = rw (h, k) refl

-- One segment.
pub segments-one : (s : String) → IsSegment s → segments s ≡ s ∷ []
unfolding segments split_at
segments-one String.[] h = refl
segments-one (String.◌∷◌ c s) h =
    let plain : eqb (code c) b'?' ≡ false = ground arith in
    let inside : eqb (code c) b'/' ≡ false = ground arith in
    ap (split_at (eqb (code c) b'?') (eqb (code c) b'/') c) (segments-one s h.1)
    ∙ split_plain (eqb (code c) b'?') (eqb (code c) b'/') c s plain inside

segments_query : (query : String) → segments ("?" <> query) ≡ String.[] ∷ []
unfolding segments
segments_query query = rw cons-append refl

query_of_entries : (query : String) → segments (with_mark query) ≡ String.[] ∷ []
unfolding segments
query_of_entries query = elim (Bool-cases (query == "")) [
  | inl none_given ↦ rw none_given refl
  | inr given ↦ rw given (segments_query query)
]

-- A query adds no segment.
pub segments-to_query_string :
    (values : List (String × QueryValue)) → segments (to_query_string values) ≡ String.[] ∷ []
unfolding to_query_string
segments-to_query_string values = query_of_entries (join_entries (entries_of values))
