-- ===== src/Tests/HoldingsPage.antt =====
-- The portfolio page at concrete positions.
use algorithmic_trading_simu.Prelude.{◌≡◌, refl, Bool, true, false, some, String, []}
use algorithmic_trading_simu.Prelude.Int.{ℤ, pos}
use algorithmic_trading_simu.Prelude.Sorting.{sort}
use algorithmic_trading_simu.Js.{
  Number, finite, nan, Value, Items, number, string, array, object, nil, cons, end, field, lookup,
}
use algorithmic_trading_simu.Portfolio.{start}
use algorithmic_trading_simu.Holdings.{Snapshots}
use algorithmic_trading_simu.Holdings.SymbolsKey.{
  symbols_of, distinct_symbols, symbols_key, polled_symbols, is_among, polled_symbols-key,
}
use algorithmic_trading_simu.Holdings.Actions.{Page}

abbrev convert : Value → Number
convert v = nan

abbrev percent : ℤ → ℤ → Number
percent a b = finite a

-- No text stands before another.
abbrev unordered : String → String → Bool
unordered s t = true

abbrev position : String → Value
position s = object (
    field "symbol" (string s) (
      field "quantity" (number (finite (pos 3)))
        (field "avg_price" (number (finite (pos 100))) end)))

abbrev positions : Items
positions = cons (position "ACME") (cons (position "INIT") (cons (position "ACME") nil))

abbrev snapshots : Snapshots
snapshots = record { market = field "ACME" (number (finite (pos 120))) end; signals = end }

key : symbols_key unordered positions ≡ "ACME,INIT"
unfolding symbols_key lookup sort
key = refl

polled_symbols-key_example :
    let polled = polled_symbols (symbols_key unordered positions) in
    (polled ≡ sort unordered (distinct_symbols (symbols_of positions)))
    × ((s : String) → is_among s polled ≡ is_among s (symbols_of positions))
unfolding symbols_of lookup
polled_symbols-key_example = polled_symbols-key unordered positions refl

abbrev page : Page
page = record {
  hook = record start {
    portfolio = record start.portfolio { positions = array positions };
    loading = false;
  };
  market = [];
  snapshots = snapshots;
  selected_symbol = some "INIT";
  busy = false;
  toasts = [];
}
