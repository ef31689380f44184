-- ===== src/Holdings.antt =====
-- pages/Portfolio.jsx: the positions merged with live quotes and snapshots, the totals, what the page
-- shows, and its refresh and reset. Quantities count shares and prices cents, and products and
-- sums are exact: the rounding of JavaScript's doubles is not modelled. The quotient of two amounts,
-- as a percentage, is a parameter. A symbol is a text. A position, quote or signal that is
-- no object is read as one without properties.
pub mod SymbolsKey
pub mod Accounting
pub mod Actions
pub mod Allocation
pub mod Details
use algorithmic_trading_simu.Prelude.{
  ℕ, Bool, true, false, not, ◌&&◌, ◌||◌, Option, none, some, String, str_eq, List, [], ◌∷◌,
  if◌then◌else◌,
}
use algorithmic_trading_simu.Prelude.Int.{ℤ, pos, negsuc, ltb_ℤ, ◌+ℤ◌, ◌-ℤ◌, ◌*ℤ◌}
use algorithmic_trading_simu.Js.{
  Number, finite, Value, Items, Fields, undefined, null, number, string, array, object, nil, cons,
  end, field, truthy, or_else, coalesce, opt_get, lookup, insert, fields_of, to_number,
}
use algorithmic_trading_simu.Market.{symbol_of}
use algorithmic_trading_simu.Market.Quotes.{Table, find, store}
use algorithmic_trading_simu.Portfolio.{Portfolio}

-- `num`.
unfoldable pub num : (Value → Number) → Value → ℤ
num convert v = elim (to_number convert v) [ finite n ↦ n | _ ↦ pos 0 ]

abbrev pub amount : ℤ → Value
amount n = number (finite n)

-- The two snapshots, objects with a property for each symbol.
pub record Snapshots : Type 0 where
  pub market : Fields
  pub signals : Fields

-- `marketMap`, from what useMarket returns.
unfoldable pub market_map : List Fields → Table → Table
market_map [] t = t
market_map (m ∷ ms) t =
    market_map ms (elim (symbol_of (object m)) [ none ↦ t | some s ↦ store s m t ])

-- The loop over the quotes of a tick.
unfoldable pub next_market : (Value → Number) → Items → Fields → Fields
unfolding num
next_market convert nil fs = fs
next_market convert (cons row rows) fs = next_market convert rows (elim (symbol_of row) [
  | none ↦ fs
  | some s ↦ insert s (amount (num convert (opt_get "price" row))) fs
])

-- The loop over the signals.
unfoldable pub next_signals : (Value → Number) → Items → Fields → Fields
unfolding num
next_signals convert nil fs = fs
next_signals convert (cons sig sigs) fs = next_signals convert sigs (elim (symbol_of sig) [
  | none ↦ fs
  | some s ↦
      insert s
        (object (
          field "signal" (or_else (opt_get "signal" sig) (string "HOLD"))
            (field "confidence" (amount (num convert (opt_get "confidence" sig))) end)))
        fs
])

-- `tick`, with the data of its replies, `null` for one that failed. Signals that are truthy and no
-- array make `forEach` throw, after the quotes were set.
unfoldable pub tick : (Value → Number) → Items → Value → Snapshots → Snapshots
unfolding next_market next_signals
tick convert quotes signal_res s =
    let set = record s { market = next_market convert quotes end } in
    elim (or_else (opt_get "signals" signal_res) (array nil)) [
      | array sigs ↦ record set { signals = next_signals convert sigs end }
      | _ ↦ set
    ]

-- A position of the table: the position's own properties and those that `merged` sets.
pub record Row : Type 0 where
  pub position : Value
  pub symbol : Value
  pub quantity : ℤ
  pub avg_price : ℤ
  pub current_price : ℤ
  pub market_value : ℤ
  pub pnl : ℤ
  pub pnl_percentage : Number
  pub signal : Value
  pub signal_confidence : ℤ
  pub candles : Items

-- The key that a symbol reads a map with.
abbrev pub key_of : Value → String
key_of (string s) = s
key_of _ = "undefined"

abbrev pub array_or_empty : Value → Items
array_or_empty (array vs) = vs
array_or_empty _ = nil

-- `merged.reduce((a, x) => a + f(x), start)`.
unfoldable pub sum_by : (Row → ℤ) → ℤ → List Row → ℤ
sum_by f start [] = start
sum_by f start (r ∷ rs) = sum_by f (start +ℤ f r) rs

pub record Totals : Type 0 where
  pub equity : ℤ
  pub cash : ℤ
  pub unrealized : ℤ
  pub total_pnl : ℤ
  pub pct : Number

module _ (convert : Value → Number) (percent : ℤ → ℤ → Number) where
  unfoldable pub merge_row : Table → Snapshots → Value → Row
  unfolding num
  merge_row live_map s p =
      let symbol = opt_get "symbol" p in
      let live = object (find (key_of symbol) live_map) in
      let info = lookup (key_of symbol) s.signals in
      let quantity = num convert (opt_get "quantity" p) in
      let avg_price = num convert (opt_get "avg_price" p) in
      let price = num convert (
        coalesce (lookup (key_of symbol) s.market)
          (coalesce (opt_get "current_price" p) (opt_get "avg_price" p))) in
      record {
        position = p;
        symbol = symbol;
        quantity = quantity;
        avg_price = avg_price;
        current_price = price;
        market_value = quantity *ℤ price;
        pnl = (price -ℤ avg_price) *ℤ quantity;
        pnl_percentage =
            if ltb_ℤ (pos 0) avg_price
            then percent (price -ℤ avg_price) avg_price
            else finite (pos 0);
        signal =
            coalesce (opt_get "signal" live)
              (coalesce (opt_get "signal" info) (coalesce (opt_get "signal" p) (string "HOLD")));
        signal_confidence = num convert (opt_get "confidence" info);
        candles = array_or_empty (opt_get "candles" live);
      }

  unfoldable pub merge_rows : Table → Snapshots → Items → List Row
  unfolding merge_row
  merge_rows live_map s nil = []
  merge_rows live_map s (cons p ps) = merge_row live_map s p ∷ merge_rows live_map s ps

  unfoldable pub totals : Portfolio → List Row → Totals
  unfolding sum_by num
  totals p rows =
      let market_value = sum_by (λ r. r.market_value) (pos 0) rows in
      let unrealized = sum_by (λ r. r.pnl) (pos 0) rows in
      let equity = num convert (or_else p.total_equity (amount market_value)) in
      let invested = equity -ℤ unrealized in
      record {
        equity = equity;
        cash = num convert p.cash_balance;
        unrealized = unrealized;
        total_pnl =
            num convert (coalesce p.total_pnl (amount (unrealized +ℤ num convert p.realized_pnl)));
        pct = if ltb_ℤ (pos 0) invested then percent unrealized invested else finite (pos 0);
      }

-- `merged.find((p) => p.symbol === selectedSymbol) || merged[0]`, and `null` without rows.
abbrev pub same_symbol : Value → Option String → Bool
same_symbol (string s) (some t) = str_eq s t
same_symbol _ _ = false

unfoldable pub selected_or : Row → Option String → List Row → Row
selected_or default s [] = default
selected_or default s (r ∷ rs) = if same_symbol r.symbol s then r else selected_or default s rs

unfoldable pub selected : Option String → List Row → Option Row
unfolding selected_or
selected s [] = none
selected s (r ∷ rs) = some (selected_or r s (r ∷ rs))
