-- ===== src/Holdings/Allocation.antt =====
-- components/charts/AllocationPie.jsx: the slices, and when the ring is drawn. A text is read by a
-- parameter that stands for `Number` of its digits; positions are objects; widths are whole pixels.
pub mod Slices
use algorithmic_trading_simu.Prelude.{
  ℕ, ◌*◌, Bool, true, false, not, ◌&&◌, Option, none, some, String, List, [], ◌∷◌, select,
  if◌then◌else◌, ltb, ◌==◌, min,
}
use algorithmic_trading_simu.Prelude.Int.{ℤ, pos, ltb_ℤ, leb_ℤ, ◌+ℤ◌, ◌*ℤ◌}
use algorithmic_trading_simu.Prelude.Sorting.{sort}
use algorithmic_trading_simu.Js.{
  Number, finite, Value, Items, nil, cons, number, string, array, coalesce, opt_get,
}
use algorithmic_trading_simu.Holdings.{array_or_empty}

abbrev pub finite_or_zero : Number → ℤ
finite_or_zero (finite n) = n
finite_or_zero _ = pos 0

unfoldable pub parse_number : (String → Number) → Value → ℤ
parse_number clean (number n) = finite_or_zero n
parse_number clean (string s) = finite_or_zero (clean s)
parse_number clean _ = pos 0

pub record Slice : Type 0 where
  pub name : Value
  pub value : ℤ
  pub position : Value

-- `a || b` on numbers that are finite.
abbrev pub nonzero_or : ℤ → ℤ → ℤ
nonzero_or (pos n) b = if n == 0 then b else pos n
nonzero_or a b = a

unfoldable pub slice_of : (String → Number) → Value → Slice
unfolding parse_number
slice_of clean p =
    let quantity = parse_number clean (opt_get "quantity" p) in
    let price = parse_number clean (coalesce (opt_get "current_price" p) (opt_get "avg_price" p)) in
    let value = nonzero_or (parse_number clean (opt_get "market_value" p)) (quantity *ℤ price) in
    record {
      name = opt_get "symbol" p;
      value = if ltb_ℤ (pos 0) value then value else pos 0;
      position = p;
    }

unfoldable pub map_slices : (String → Number) → Items → List Slice
unfolding slice_of
map_slices clean nil = []
map_slices clean (cons p ps) = slice_of clean p ∷ map_slices clean ps

abbrev pub is_above_zero : Slice → Bool
is_above_zero d = ltb_ℤ (pos 0) d.value

abbrev pub by_value : Slice → Slice → Bool
by_value a b = leb_ℤ b.value a.value

unfoldable pub slices : (String → Number) → Value → List Slice
unfolding map_slices
slices clean positions =
    sort by_value (select is_above_zero (map_slices clean (array_or_empty positions)))

unfoldable pub total : List Slice → ℤ → ℤ
total [] s = s
total (d ∷ ds) s = total ds (s +ℤ d.value)

-- The component after a render: its slices, the width that it measured, and whether the observer of
-- the size is set, which happens in the effect of the first render alone.
pub record Pie : Type 0 where
  pub data_shown : List Slice
  pub width : ℕ
  pub observed : Bool

-- Without slices the placeholder is rendered, and the reference to the wrapper is null.
abbrev pub has_wrapper : List Slice → Bool
has_wrapper [] = false
has_wrapper (d ∷ ds) = true

unfoldable pub mount : (String → Number) → ℕ → Value → Pie
mount clean client_width positions =
    let ds = slices clean positions in
    record {
      data_shown = ds;
      width = if has_wrapper ds then client_width else 0;
      observed = has_wrapper ds;
    }

-- Other positions, and a change of the size of the wrapper that the first render had.
pub data Event : Type 0 where
  positions_change : Value → Event
  size_changes : ℕ → Event

unfoldable pub step : (String → Number) → Pie → Event → Pie
step clean p (positions_change v) = record p { data_shown = slices clean v }
step clean p (size_changes w) = if p.observed then record p { width = w } else p

abbrev pub run : (String → Number) → Pie → List Event → Pie
run clean p [] = p
run clean p (e ∷ es) = run clean (step clean p e) es

-- Whether the ring is drawn: there are slices, and `chartW > 0`.
unfoldable pub draws : Pie → Bool
draws p = has_wrapper p.data_shown && ltb 0 (min p.width 240)
