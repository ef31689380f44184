-- ===== src/Heatmap.antt =====
-- The volatility heat map: utils/colormap.js and components/ui/VolHeatmap.jsx. A volatility counts
-- millionths, so that the least span is 1; positions are whole pixels of an area that is wider and
-- higher than its margins. A cell's left edge and top are given by their numerators over the number
-- of columns and of rows. The rows have one length.
pub mod Colours
pub mod Hovering
use algorithmic_trading_simu.Prelude.{
  ℕ, zero, suc, ◌+◌, ◌-◌, ◌*◌, ◌/◌, min, max, Bool, true, false, ◌||◌, Option, none, some, List, [],
  ◌∷◌, ◌++◌, length, if◌then◌else◌, ltb, leb,
}
use algorithmic_trading_simu.Prelude.Int.{ℤ, pos_part, ◌-ℤ◌}

pub record Rgb : Type 0 where
  pub r : ℕ
  pub g : ℕ
  pub b : ℕ

abbrev pub rgb : ℕ → ℕ → ℕ → Rgb
rgb r g b = record { r = r; g = g; b = b }

abbrev pub stops : List Rgb
stops =
    rgb 48 18 59
    ∷ rgb 62 73 204
    ∷ rgb 33 144 231
    ∷ rgb 27 205 194
    ∷ rgb 104 222 99
    ∷ rgb 223 227 53
    ∷ rgb 253 154 42
    ∷ rgb 221 61 30
    ∷ []

-- `STOPS[i]`, for an index that there is.
abbrev pub nth : ℕ → List Rgb → Rgb
nth i [] = rgb 0 0 0
nth zero (c ∷ cs) = c
nth (suc i) (c ∷ cs) = nth i cs

-- `Math.round(a + (b - a) * f)`, for f = r / q.
unfoldable pub channel : ℕ → ℕ → ℕ → ℕ → ℕ
channel a b r q = (2 * (a * (q - r) + b * r) + q) / (2 * q)

abbrev pub blend : Rgb → Rgb → ℕ → ℕ → Rgb
unfolding channel
blend c d r q = rgb (channel c.r d.r r q) (channel c.g d.g r q) (channel c.b d.b r q)

-- `Math.min(STOPS.length - 2, Math.floor(seg))`, for seg = s / q.
unfoldable pub segment : ℕ → ℕ → ℕ
segment s q = min 6 (s / q)

-- `turbo(t)`, for t = p / q, where a negative t is given as 0.
unfoldable pub turbo : ℕ → ℕ → Rgb
unfolding segment channel
turbo p q =
    let s = min p q * 7 in
    let i = segment s q in blend (nth i stops) (nth (suc i) stops) (s - i * q) q

-- The properties, and the size of the wrapper.
pub record Map : Type 0 where
  pub iv : List (List ℤ)
  pub zmin : ℤ
  pub zmax : ℤ
  pub width : ℕ
  pub height : ℕ

abbrev pub columns : List (List ℤ) → ℕ
columns [] = 0
columns (row ∷ rows) = length row

-- `nx`, `ny`, `pw` and `ph`.
abbrev pub nx : Map → ℕ
nx m = columns m.iv

abbrev pub ny : Map → ℕ
ny m = length m.iv

abbrev pub pw : Map → ℕ
pw m = m.width - 50 - 16

abbrev pub ph : Map → ℕ
ph m = m.height - 12 - 30

-- A filled rectangle: its edges ML + left / nx and MT + top / ny, and its sides width / (2 * nx) and
-- height / (2 * ny), which are half a pixel longer than a column is wide and a row high.
pub record Fill : Type 0 where
  pub left : ℕ
  pub top : ℕ
  pub width : ℕ
  pub height : ℕ
  pub color : Rgb

unfoldable pub fill : Map → ℕ → ℕ → ℤ → Fill
unfolding turbo
fill m j i v = record {
  left = i * pw m;
  top = (ny m - 1 - j) * ph m;
  width = 2 * pw m + nx m;
  height = 2 * ph m + ny m;
  color = turbo (pos_part (v -ℤ m.zmin)) (max 1 (pos_part (m.zmax -ℤ m.zmin)));
}

-- The loops of `draw`.
unfoldable pub draw_row : Map → ℕ → ℕ → List ℤ → List Fill
unfolding fill
draw_row m j i [] = []
draw_row m j i (v ∷ vs) = fill m j i v ∷ draw_row m j (suc i) vs

unfoldable pub draw_rows : Map → ℕ → List (List ℤ) → List Fill
unfolding draw_row
draw_rows m j [] = []
draw_rows m j (row ∷ rows) = draw_row m j 0 row ++ draw_rows m (suc j) rows

unfoldable pub draw : Map → List Fill
unfolding draw_rows
draw m = draw_rows m 0 m.iv

-- `onMove`: the column and the row under a point, none where it clears the hover. Left of the
-- margin the quotient is negative, and so is it above.
unfoldable pub cell_at : Map → ℕ → ℕ → Option (ℕ × ℕ)
cell_at m x y =
    let i = (x - 50) * nx m / pw m in
    let jr = (y - 12) * ny m / ph m in
    if ltb x 50 || leb (nx m) i || ltb y 12 || leb (ny m) jr then none else some (i, ny m - 1 - jr)
