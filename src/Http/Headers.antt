-- ===== src/Http/Headers.antt =====
-- A `Headers` object: an association list over names in lower case.
use enterprise_crm.Common.{
  String, Option, none, some, List, [], ◌∷◌, ◌≡◌, refl, ◌==◌, eq_iff, arith, if◌then◌else◌,
}

abbrev pub Headers : Type 0
Headers = List (String × String)

unfoldable pub get : String → Headers → Option String
get name [] = none
get name ((n, v) ∷ h) = if n == name then some v else get name h

unfoldable pub set : String → String → Headers → Headers
set name value [] = (name, value) ∷ []
set name value ((n, v) ∷ h) = if n == name then (name, value) ∷ h else (n, v) ∷ set name value h

unfoldable pub delete : String → Headers → Headers
delete name [] = []
delete name ((n, v) ∷ h) = let rest = delete name h in if n == name then rest else (n, v) ∷ rest

pub get-set :
    (j k v : String) (h : Headers) → get j (set k v h) ≡ (if k == j then some v else get j h)
unfolding get set
get-set j k v [] = refl
get-set j k v ((n, w) ∷ h) = ground (arith, eq_iff k j, eq_iff n k, eq_iff n j, get-set j k v h)

pub get-delete :
    (j k : String) (h : Headers) → get j (delete k h) ≡ (if k == j then none else get j h)
unfolding get delete
get-delete j k [] = ground arith
get-delete j k ((n, w) ∷ h) = ground (arith, eq_iff k j, eq_iff n k, eq_iff n j, get-delete j k h)
