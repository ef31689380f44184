-- ===== src/Prelude/Keys.antt =====
-- A JavaScript `Set` of callbacks: numbers in insertion order, an entry at most once.
use Prim.Native.Nat.{ℕ}
use mathlib.Core.Path.{◌≡◌, refl}
use mathlib.Core.Bool.{Bool, true, false, ◌||◌, ◌&&◌, not}
use mathlib.Core.List.{List, [], ◌∷◌, ◌++◌}
use native.Mathlib.Omega.{arith}
use algorithmic_trading_simu.Prelude.Tests.{◌==◌, if◌then◌else◌}

unfoldable pub has : ℕ → List ℕ → Bool
has c [] = false
has c (d ∷ ds) = d == c || has c ds

unfoldable pub add : ℕ → List ℕ → List ℕ
add c s = if has c s then s else s ++ c ∷ []

unfoldable pub delete : ℕ → List ℕ → List ℕ
delete c [] = []
delete c (d ∷ ds) = if d == c then ds else d ∷ delete c ds

-- No entry twice.
unfoldable pub is_set : List ℕ → Bool
unfolding has
is_set [] = true
is_set (d ∷ ds) = not (has d ds) && is_set ds

has-append : (c : ℕ) (xs ys : List ℕ) → has c (xs ++ ys) ≡ (has c xs || has c ys)
unfolding has
has-append c [] ys = refl
has-append c (x ∷ xs) ys = ground (arith, has-append c xs ys)

pub has-add : (c d : ℕ) (s : List ℕ) → has c (add d s) ≡ (d == c || has c s)
unfolding has add
has-add c d s = ground (arith, has-append c s (d ∷ []))

pub has-delete :
    (c d : ℕ) (s : List ℕ) → is_set s ≡ true → has c (delete d s) ≡ (not (d == c) && has c s)
unfolding has delete is_set
has-delete c d [] u = ground arith
has-delete c d (x ∷ xs) u = ground (arith, has-delete c d xs)

is_set-append :
    (c : ℕ) (s : List ℕ) → is_set s ≡ true → has c s ≡ false → is_set (s ++ c ∷ []) ≡ true
unfolding is_set has
is_set-append c [] u h = refl
is_set-append c (x ∷ xs) u h = ground (arith, is_set-append c xs, has-append x xs (c ∷ []))

pub is_set-add : (c : ℕ) (s : List ℕ) → is_set s ≡ true → is_set (add c s) ≡ true
unfolding add
is_set-add c s u = ground (arith, is_set-append c s)

pub is_set-delete : (c : ℕ) (s : List ℕ) → is_set s ≡ true → is_set (delete c s) ≡ true
unfolding is_set delete
is_set-delete c [] u = refl
is_set-delete c (x ∷ xs) u = ground (arith, is_set-delete c xs, has-delete x c xs)

pub delete-has : (c d : ℕ) (s : List ℕ) → has c (delete d s) ≡ true → has c s ≡ true
unfolding has delete
delete-has c d [] h = h
delete-has c d (x ∷ xs) h = ground (arith, delete-has c d xs)
