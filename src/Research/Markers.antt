-- ===== src/Research/Markers.antt =====
-- pages/Backtester.jsx, `priceRows`: each trade signal is put on the row of the nearest date. A time
-- is a whole number of milliseconds, and none for a text that is no date; none as a distance is
-- NaN, or the Infinity that the search begins with.
pub mod Nearest
use algorithmic_trading_simu.Prelude.{
  ℕ, zero, suc, ◌+◌, ◌-◌, ◌>>=◌, Bool, true, false, Option, none, some, String, List, [], ◌∷◌, map,
  if◌then◌else◌, ltb,
}
use algorithmic_trading_simu.Js.{Value, Fields, lookup, insert}

pub record Signal : Type 0 where
  pub date : Value
  pub type : String
  pub price : Value

-- `Math.abs(a - b)`.
abbrev pub distance : Option ℕ → Option ℕ → Option ℕ
distance (some a) (some b) = some ((a - b) + (b - a))
distance _ _ = none

-- `d < bd`.
abbrev pub closer : Option ℕ → Option ℕ → Bool
closer (some d) (some bd) = ltb d bd
closer (some d) none = true
closer none bd = false

-- The loop from index i on.
unfoldable pub nearest_from : Option ℕ → ℕ → ℕ → Option ℕ → List (Option ℕ) → ℕ
nearest_from t i best bd [] = best
nearest_from t i best bd (x ∷ xs) =
    let d = distance x t in
    let found = closer d bd in
    nearest_from t (suc i) (if found then i else best) (if found then d else bd) xs

unfoldable pub nearest : Option ℕ → List (Option ℕ) → ℕ
unfolding nearest_from
nearest t times = nearest_from t 0 0 none times

-- `rows[best][k] = v`; none is the TypeError if there is no such row.
unfoldable pub assign : ℕ → String → Value → List Fields → Option (List Fields)
unfolding insert
assign i k v [] = none
assign zero k v (row ∷ rows) = some (insert k v row ∷ rows)
assign (suc i) k v (row ∷ rows) = do rest ← assign i k v rows; some (row ∷ rest)

module _ (time_of : Value → Option ℕ) where
  abbrev pub times_of : List Fields → List (Option ℕ)
  times_of rows = map (λ row. time_of (lookup "date" row)) rows

  unfoldable pub mark : List (Option ℕ) → Signal → List Fields → Option (List Fields)
  unfolding nearest assign
  mark times sg rows = assign (nearest (time_of sg.date) times) sg.type sg.price rows

  unfoldable pub mark_all : List (Option ℕ) → List Signal → List Fields → Option (List Fields)
  unfolding mark
  mark_all times [] rows = some rows
  mark_all times (sg ∷ sgs) rows = do marked ← mark times sg rows; mark_all times sgs marked

  -- `rows` copies the series, and `times` is read before the signals are put on.
  unfoldable pub price_rows : List Fields → List Signal → Option (List Fields)
  unfolding mark_all
  price_rows series signals = mark_all (times_of series) signals series
