-- ===== src/Common/Slices.antt =====
-- Lemmas on the parts of a list.
use Prim.Native.Nat.{ℕ, zero, suc, ◌+◌, ◌≤◌}
use mathlib.Core.Path.{◌≡◌, refl, sym, ap, ◌∙◌}
use mathlib.Core.List.{List, [], ◌∷◌, ◌++◌}
use native.Mathlib.Omega.{arith}
use enterprise_crm.Common.Predicates.{length, take, drop}

module _ {ℓ} {A : Type ℓ} where
  take_nil : (n : ℕ) → take {A = A} n [] ≡ []
  unfolding take
  take_nil zero = refl
  take_nil (suc n) = refl

  pub take_further : (a b : ℕ) (xs : List A) → take a xs ++ take b (drop a xs) ≡ take (a + b) xs
  unfolding take drop
  take_further zero b xs = ap (λ (n : ℕ). take n xs) (omega arith)
  take_further (suc a) b [] = take_nil b ∙ sym (take_nil (suc a + b))
  take_further (suc a) b (x ∷ xs) =
      ap (λ (l : List A). x ∷ l) (take_further a b xs)
      ∙ ap (λ (n : ℕ). take n (x ∷ xs)) (let e : suc (a + b) ≡ suc a + b = omega arith in e)

  pub take_enough : (a : ℕ) (xs : List A) → length xs ≤ a → take a xs ≡ xs
  unfolding take
  take_enough zero [] h = refl
  take_enough zero (x ∷ xs) h = absurd (omega arith)
  take_enough (suc a) [] h = refl
  take_enough (suc a) (x ∷ xs) h = ap (λ (l : List A). x ∷ l) (take_enough a xs (omega arith))
