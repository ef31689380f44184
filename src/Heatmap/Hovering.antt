-- ===== src/Heatmap/Hovering.antt =====
-- The cell that is named under the pointer, against the rectangles that are filled.
use native.Mathlib.Nat.{mul_assoc, le-div_iff_mul-le, div-lt_iff_lt-mul}
use algorithmic_trading_simu.Prelude.{
  ℕ, suc, ◌+◌, ◌-◌, ◌*◌, ◌/◌, ◌≤◌, ◌<◌, ◌≡◌, ◌↔◌, Bool, true, ◌||◌, ◌&&◌, Option, none, some,
  if◌then◌else◌, ltb, leb, arith,
}
use algorithmic_trading_simu.Prelude.Int.{ℤ}
use algorithmic_trading_simu.Heatmap.{Map, nx, ny, pw, ph, Fill, fill, cell_at}

-- Whether the point lies in a filled rectangle. The position is counted in half pixels.
abbrev pub covers : Map → Fill → ℕ → ℕ → Bool
covers m f x y =
    leb 100 x
    && leb (2 * f.left) ((x - 100) * nx m)
    && ltb ((x - 100) * nx m) (2 * f.left + f.width)
    && leb 24 y
    && leb (2 * f.top) ((y - 24) * ny m)
    && ltb ((y - 24) * ny m) (2 * f.top + f.height)

doubled : (x k n : ℕ) → (2 * x - 2 * k) * n ≡ 2 * ((x - k) * n)
doubled x k n = let e : 2 * x - 2 * k ≡ 2 * (x - k) = omega arith in rw e (mul_assoc 2 (x - k) n)

doubled_next : (x k n : ℕ) → k ≤ x → (2 * x + 1 - 2 * k) * n ≡ 2 * ((x - k) * n) + n
doubled_next x k n h =
    let e : 2 * x + 1 - 2 * k ≡ 2 * (x - k) + 1 = omega (arith, h) in rw e (omega arith)

quotient_iff : (a d i : ℕ) → 0 < d → (a / d ≡ i) ↔ ((i * d ≤ a) × (a < i * d + d))
quotient_iff a d i pos = (
  λ e. (
    (le-div_iff_mul-le {k = d} {x = i} {y = a} pos).0 (omega (arith, e)),
    omega (arith, (div-lt_iff_lt-mul {k = d} {x = a} {y = suc i} pos).0 (omega (arith, e))),
  ),
  λ h.
      let low = (le-div_iff_mul-le {k = d} {x = i} {y = a} pos).1 h.0 in
      let high = (div-lt_iff_lt-mul {k = d} {x = a} {y = suc i} pos).1 (omega (arith, h.1)) in
      omega (arith, low, high),
)

-- The test of `cell_at`, for a column c of n and a row r of k from the top.
abbrev cell : ℕ → ℕ → ℕ → ℕ → ℕ → ℕ → Option (ℕ × ℕ)
cell x y c r n k = if ltb x 50 || leb n c || ltb y 12 || leb k r then none else some (c, k - 1 - r)

cell_inside :
    (x y c r n k i j : ℕ)
    → cell x y c r n k ≡ some (i, j)
    → (50 ≤ x) × (c ≡ i) × (12 ≤ y) × (r ≡ k - 1 - j)
cell_inside x y c r n k i j e = ground arith

inside_cell :
    (x y c r n k i j : ℕ)
    → i < n
    → j < k
    → (50 ≤ x) × (c ≡ i) × (12 ≤ y) × (r ≡ k - 1 - j)
    → cell x y c r n k ≡ some (i, j)
inside_cell x y c r n k i j a b h = ground arith

-- A side of a cell: the quotient is the number of the column or row exactly if the rectangle, half
-- a pixel longer than the cell, begins at or before the position and ends more than half a pixel
-- after it.
side_iff :
    (x k n d i : ℕ)
    → 0 < d
    → k ≤ x
    → ((x - k) * n / d ≡ i) ↔ (
        (2 * (i * d) ≤ (2 * x - 2 * k) * n) × ((2 * x + 1 - 2 * k) * n < 2 * (i * d) + (2 * d + n)))
side_iff x k n d i pos h =
    let q = quotient_iff ((x - k) * n) d i pos in
    rw (doubled x k n, doubled_next x k n h)
      (
        λ e. (omega (arith, q.0 e), omega (arith, q.0 e)),
        λ e. q.1 (omega (arith, e), omega (arith, e)),
      )

-- The two tests of `covers` on plain numbers, for a point and the one after it.
abbrev inside : ℕ → ℕ → ℕ → ℕ → ℕ → ℕ → ℕ → ℕ → Bool
inside x y p q a a' b b' = leb 100 x && leb a p && ltb p a' && leb 24 y && leb b q && ltb q b'

both_inside :
    (x x' y y' p p' q q' a a' b b' : ℕ)
    → (inside x y p q a a' b b' && inside x' y' p' q' a a' b b') ≡ true
    → (100 ≤ x) × (a ≤ p) × (p' < a') × (24 ≤ y) × (b ≤ q) × (q' < b')
both_inside x x' y y' p p' q q' a a' b b' h = ground arith

inside_both :
    (x x' y y' p p' q q' a a' b b' : ℕ)
    → (100 ≤ x) × (a ≤ p) × (p' < a') × (24 ≤ y) × (b ≤ q) × (q' < b')
    → (x ≤ x') × (y ≤ y') × (p ≤ p') × (q ≤ q')
    → (inside x y p q a a' b b' && inside x' y' p' q' a a' b b') ≡ true
inside_both x x' y y' p p' q q' a a' b b' h later = ground arith

grows : (x k n : ℕ) → k ≤ x → (2 * x - 2 * k) * n ≤ (2 * x + 1 - 2 * k) * n
grows x k n h = omega (arith, doubled x k n, doubled_next x k n h)

-- On an area with a width and a height, a cell of the map is named under a point exactly if the
-- rectangle that is filled for it covers both the point and the one half a pixel to the right of it
-- and below.
pub cell_at-covers :
    (m : Map) (i j x y : ℕ) (v : ℤ)
    → 0 < pw m
    → 0 < ph m
    → i < nx m
    → j < ny m
    → let f = fill m j i v in
      (cell_at m x y ≡ some (i, j))
      ↔ ((covers m f (2 * x) (2 * y) && covers m f (2 * x + 1) (2 * y + 1)) ≡ true)
unfolding cell_at fill
cell_at-covers m i j x y v w h a b =
    let column = side_iff x 50 (nx m) (pw m) i w in
    let row = side_iff y 12 (ny m) (ph m) (ny m - 1 - j) h in
    let c = (x - 50) * nx m / pw m in
    let r = (y - 12) * ny m / ph m in
    (
      λ e.
          let (l, c_is, t, r_is) = cell_inside x y c r (nx m) (ny m) i j e in
          let (p, p') = (column l).0 c_is in
          let (q, q') = (row t).0 r_is in
          inside_both (2 * x) (2 * x + 1) (2 * y) (2 * y + 1) _ _ _ _ _ _ _ _
            (omega (arith, l), p, p', omega (arith, t), q, q')
            (omega arith, omega arith, grows x 50 (nx m) l, grows y 12 (ny m) t),
      λ e.
          let (l, p, p', t, q, q') =
            both_inside (2 * x) (2 * x + 1) (2 * y) (2 * y + 1) _ _ _ _ _ _ _ _ e in
          let x_in : 50 ≤ x = omega (arith, l) in
          let y_in : 12 ≤ y = omega (arith, t) in
          inside_cell x y c r (nx m) (ny m) i j a b
            (x_in, (column x_in).1 (p, p'), y_in, (row y_in).1 (q, q')),
    )
