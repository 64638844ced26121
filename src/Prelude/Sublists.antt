-- ===== src/Prelude/Sublists.antt =====
-- Lists with some elements left out, the others in order, measured by native numbers.
use Prim.Native.Nat.{ℕ, zero, suc, ◌≤◌}
use mathlib.Core.Path.{◌≡◌, refl, ap₂, subst}
use mathlib.Core.List.{List, [], ◌∷◌, ◌++◌, append-nil, Sublistᴰ}
use mathlib.Core.List.Sublistᴰ
use native.Mathlib.Omega.{arith}
use fast_ring.Prelude.Lists.{length, take, drop}

module _ {ℓ} {A : Type ℓ} where
  pub sublist_prefix : (xs ys : List A) → Sublistᴰ xs (xs ++ ys)
  sublist_prefix xs ys =
      subst (λ (l : List A). Sublistᴰ l (xs ++ ys)) (append-nil xs)
        (Sublistᴰ.append (Sublistᴰ.refl xs) (Sublistᴰ.nil-sublist ys))

  -- A gap in the middle.
  pub take-drop-sublist : (j k : ℕ) (xs : List A) → j ≤ k → Sublistᴰ (take j xs ++ drop k xs) xs
  take-drop-sublist zero zero xs h = Sublistᴰ.refl xs
  take-drop-sublist zero (suc k) [] h = Sublistᴰ.slnil
  take-drop-sublist zero (suc k) (x ∷ xs) h =
      Sublistᴰ.cons (take-drop-sublist zero k xs (omega arith))
  take-drop-sublist (suc j) zero xs h = absurd (omega arith)
  take-drop-sublist (suc j) (suc k) [] h = Sublistᴰ.slnil
  take-drop-sublist (suc j) (suc k) (x ∷ xs) h =
      Sublistᴰ.cons-cons refl (take-drop-sublist j k xs (omega arith))

  pub length-sublist : {xs ys : List A} → Sublistᴰ xs ys → length xs ≤ length ys
  length-sublist Sublistᴰ.slnil = omega arith
  length-sublist (Sublistᴰ.cons s) = omega (arith, length-sublist s)
  length-sublist (Sublistᴰ.cons-cons e s) = omega (arith, length-sublist s)

  -- Nothing is left out of a list of the same length.
  pub eq_of_sublist : {xs ys : List A} → Sublistᴰ xs ys → length xs ≡ length ys → xs ≡ ys
  eq_of_sublist Sublistᴰ.slnil h = refl
  eq_of_sublist (Sublistᴰ.cons s) h = absurd (omega (arith, length-sublist s))
  eq_of_sublist (Sublistᴰ.cons-cons e s) h = ap₂ (◌∷◌) e (eq_of_sublist s (omega arith))
