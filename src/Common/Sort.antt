-- ===== src/Common/Sort.antt =====
-- `sort.Slice` by a comparison, as insertion sort. The order of elements that neither precede the
-- other, which the package leaves open, is here the one they had.
use mathlib.Core.Path.{◌≡◌}
use mathlib.Core.Bool.{Bool, true, false}
use mathlib.Core.Logic.{inl, inr}
use mathlib.Core.List.{List, [], ◌∷◌, Perm}
use mathlib.Core.List.Perm
use native.Mathlib.Omega.{arith}
use toll_mesh_store.Common.Tests.{if◌then◌else◌, Bool-cases}

module _ {ℓ} {A : Type ℓ} where
  unfoldable pub place : (A → A → Bool) → A → List A → List A
  place less x [] = x ∷ []
  place less x (y ∷ ys) = let rest = place less x ys in if less y x then y ∷ rest else x ∷ y ∷ ys

  unfoldable pub sort : (A → A → Bool) → List A → List A
  unfolding place
  sort less [] = []
  sort less (x ∷ xs) = place less x (sort less xs)

  place-Perm : (less : A → A → Bool) (x : A) (ys : List A) → Perm (place less x ys) (x ∷ ys)
  unfolding place
  place-Perm less x [] = Perm.rfl
  place-Perm less x (y ∷ ys) = elim (Bool-cases (less y x)) [
    | inl before ↦ rw before (Perm.trans (Perm.cons y (place-Perm less x ys)) (Perm.swap x y ys))
    | inr after ↦ rw after Perm.rfl
  ]

  -- Nothing is lost and nothing is added.
  pub sort-Perm : (less : A → A → Bool) (xs : List A) → Perm (sort less xs) xs
  unfolding sort
  sort-Perm less [] = Perm.rfl
  sort-Perm less (x ∷ xs) =
      Perm.trans (place-Perm less x (sort less xs)) (Perm.cons x (sort-Perm less xs))

  -- No element is less than one before it.
  abbrev pub Above : (A → A → Bool) → A → List A → Type ℓ
  Above less x [] = Unit
  Above less x (y ∷ ys) = (less y x ≡ false) × Above less x ys

  abbrev pub Sorted : (A → A → Bool) → List A → Type ℓ
  Sorted less [] = Unit
  Sorted less (x ∷ xs) = Above less x xs × Sorted less xs

-- A comparison that orders its elements as a strict weak order does.
pub record WeakOrder {ℓ} {A : Type ℓ} (less : A → A → Bool) : Type ℓ where
  pub irrefl : (a : A) → less a a ≡ false
  pub asym : (a b : A) → less a b ≡ true → less b a ≡ false
  pub false_trans : (a b c : A) → less a b ≡ false → less b c ≡ false → less a c ≡ false

module _ {ℓ} {A : Type ℓ} (less : A → A → Bool) (W : WeakOrder less) where
  Above-trans : (x y : A) (ys : List A) → less y x ≡ false → Above less y ys → Above less x ys
  Above-trans x y [] h a = tt
  Above-trans x y (z ∷ zs) h a = (W.false_trans z y x a.0 h, Above-trans x y zs h a.1)

  Above-place :
      (x y : A) (ys : List A) → less x y ≡ false → Above less y ys → Above less y (place less x ys)
  unfolding place
  Above-place x y [] h a = (h, tt)
  Above-place x y (z ∷ zs) h a = ground (arith, Above-place x y zs h a.1)

  place-Sorted : (x : A) (ys : List A) → Sorted less ys → Sorted less (place less x ys)
  unfolding place
  place-Sorted x [] s = (tt, tt)
  place-Sorted x (y ∷ ys) s =
      ground (arith, Above-trans x y ys, W.asym y x, Above-place x y ys, place-Sorted x ys s.1)

  pub sort-Sorted : (xs : List A) → Sorted less (sort less xs)
  unfolding sort
  sort-Sorted [] = tt
  sort-Sorted (x ∷ xs) = place-Sorted x (sort less xs) (sort-Sorted xs)
