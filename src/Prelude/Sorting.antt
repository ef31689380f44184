-- ===== src/Prelude/Sorting.antt =====
-- `a.sort(…)`: a stable sort by `before`, which says of two elements that the first may stand before
-- the second: that the comparison function gives 0 or less.
use Prim.Native.Nat.{suc}
use mathlib.Core.Path.{◌≡◌, refl, ◌∙◌, ap}
use mathlib.Core.Bool.{Bool, true, false, ◌&&◌, ◌||◌}
use mathlib.Core.List.{List, [], ◌∷◌}
use native.Mathlib.Omega.{arith}
use algorithmic_trading_simu.Prelude.Tests.{if◌then◌else◌, Bool-cases}
use algorithmic_trading_simu.Prelude.Lists.{length}
use mathlib.Core.Logic.{inl, inr}

-- Whether a test holds of an element.
abbrev pub some_of {ℓ} : {A : Type ℓ} → (A → Bool) → List A → Bool
some_of p [] = false
some_of p (x ∷ xs) = p x || some_of p xs

module _ {ℓ} {A : Type ℓ} (before : A → A → Bool) where
  unfoldable pub sort_in : A → List A → List A
  sort_in x [] = x ∷ []
  sort_in x (y ∷ ys) = if before x y then x ∷ y ∷ ys else y ∷ sort_in x ys

  unfoldable pub sort : List A → List A
  unfolding sort_in
  sort [] = []
  sort (x ∷ xs) = sort_in x (sort xs)

  pub length-sort_in : (x : A) (ys : List A) → length (sort_in x ys) ≡ suc (length ys)
  unfolding sort_in
  length-sort_in x [] = refl
  length-sort_in x (y ∷ ys) = ground (arith, length-sort_in x ys)

  pub length-sort : (xs : List A) → length (sort xs) ≡ length xs
  unfolding sort
  length-sort [] = refl
  length-sort (x ∷ xs) = ground (arith, length-sort_in x (sort xs), length-sort xs)

  -- Neighbours stand in order.
  abbrev pub sorted : List A → Bool
  sorted [] = true
  sorted (x ∷ []) = true
  sorted (x ∷ y ∷ ys) = before x y && sorted (y ∷ ys)

  module _ (total : (x y : A) → before x y ≡ false → before y x ≡ true) where
    -- An element that may stand after `w`, put behind it.
    sorted-sort_in_after :
        (w x : A) (ys : List A)
        → before w x ≡ true
        → sorted (w ∷ ys) ≡ true
        → sorted (w ∷ sort_in x ys) ≡ true
    unfolding sort_in
    sorted-sort_in_after w x [] b s = ground arith
    sorted-sort_in_after w x (y ∷ ys) b s = elim (Bool-cases (before x y)) [
      | inl e ↦ rw (e) (ground arith)
      | inr e ↦ rw (e) (ground (arith, sorted-sort_in_after y x ys (total x y e)))
    ]

    pub sorted-sort_in : (x : A) (ys : List A) → sorted ys ≡ true → sorted (sort_in x ys) ≡ true
    unfolding sort_in
    sorted-sort_in x [] s = refl
    sorted-sort_in x (y ∷ ys) s = elim (Bool-cases (before x y)) [
      | inl e ↦ rw (e) (ground arith)
      | inr e ↦ rw (e) (sorted-sort_in_after y x ys (total x y e) s)
    ]

    pub sorted-sort : (xs : List A) → sorted (sort xs) ≡ true
    unfolding sort
    sorted-sort [] = refl
    sorted-sort (x ∷ xs) = sorted-sort_in x (sort xs) (sorted-sort xs)

  some_of-sort_in :
      (p : A → Bool) (x : A) (ys : List A) → some_of p (sort_in x ys) ≡ (p x || some_of p ys)
  unfolding sort_in
  some_of-sort_in p x [] = refl
  some_of-sort_in p x (y ∷ ys) = ground (arith, some_of-sort_in p x ys)

  pub some_of-sort : (p : A → Bool) (xs : List A) → some_of p (sort xs) ≡ some_of p xs
  unfolding sort
  some_of-sort p [] = refl
  some_of-sort p (x ∷ xs) = ground (arith, some_of-sort_in p x (sort xs), some_of-sort p xs)

  -- A sorted list is left as it is.
  pub sort_id : (xs : List A) → sorted xs ≡ true → sort xs ≡ xs
  unfolding sort sort_in
  sort_id [] s = refl
  sort_id (x ∷ []) s = refl
  sort_id (x ∷ y ∷ ys) s = ap (sort_in x) (sort_id (y ∷ ys) (ground arith)) ∙ ground arith
