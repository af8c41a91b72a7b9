-- ===== src/Common/Entries.antt =====
-- A Map with texts as keys, or an object's own members: entries in the order of their first writing.
use Prim.Native.String.{String}
use mathlib.Core.Option.{Option, none, some}
use mathlib.Core.Path.{◌≡◌, refl}
use mathlib.Core.List.{List, [], ◌∷◌}
use native.Mathlib.Omega.{arith}
use text.Mathlib.Text.{◌==◌}
use text.Mathlib.TextEquality.{eq_iff}
use enterprise_crm.Common.Tests.{if◌then◌else◌}

module _ {ℓ} {A : Type ℓ} where
  unfoldable pub get : String → List (String × A) → Option A
  get key [] = none
  get key ((name, found) ∷ rest) = if name == key then some found else get key rest

  unfoldable pub set : String → A → List (String × A) → List (String × A)
  set key value [] = (key, value) ∷ []
  set key value ((name, old) ∷ rest) =
      if name == key then (name, value) ∷ rest else (name, old) ∷ set key value rest

  pub get-set :
      (key j : String) (value : A) (entries : List (String × A))
      → get j (set key value entries) ≡ (if key == j then some value else get j entries)
  unfolding get set
  get-set key j value [] = refl
  get-set key j value ((name, old) ∷ rest) =
      ground (arith, eq_iff key j, eq_iff name key, eq_iff name j, get-set key j value rest)
