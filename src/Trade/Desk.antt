-- ===== src/Trade/Desk.antt =====
-- pages/Trade.jsx: the page that joins the quotes, the portfolio, the order ticket and the recent
-- trades. What the listeners of tradeService do is that of this page: the hook's fetch and the
-- page's. Positions are an array of objects, and symbols texts, as the backend sends them.
pub mod Holding
pub mod Reloading
use algorithmic_trading_simu.Prelude.{
  ℕ, zero, suc, none, some, ◌-◌, ◌==◌, Bool, true, false, String, str_eq, List, [], ◌∷◌,
  if◌then◌else◌,
}
use algorithmic_trading_simu.Prelude.Int.{pos}
use algorithmic_trading_simu.Js.{
  Number, finite, nan, Value, Items, Fields, nil, cons, array, number, string, undefined, lookup,
  opt_get, get,
}
use algorithmic_trading_simu.Auth.{Reply, replied, failed}
use algorithmic_trading_simu.Market.Quotes.{Table, find}
use algorithmic_trading_simu.Portfolio.{Hook, fetch_portfolio}
use algorithmic_trading_simu.Holdings.{market_map, array_or_empty}
use algorithmic_trading_simu.Trade
use algorithmic_trading_simu.Trade.{Side, OrderType, Props, Ticket, submit}

-- `n(v)`.
abbrev pub n : Value → Number
n (number nan) = finite (pos 0)
n (number a) = a
n _ = finite (pos 0)

-- `loads` are the unanswered calls of `getTrades`.
pub record Desk : Type 0 where
  pub symbol : String
  pub market : List Fields
  pub hook : Hook
  pub ticket : Ticket
  pub trades : Items
  pub loads : ℕ

abbrev pub is_text : String → Value → Bool
is_text s (string t) = str_eq t s
is_text s _ = false

-- `positions.find((x) => x.symbol === symbol)`.
abbrev pub find_position : String → Items → Value
find_position s nil = undefined
find_position s (cons x xs) = if is_text s (opt_get "symbol" x) then x else find_position s xs

unfoldable pub shares_owned : Desk → Number
shares_owned d =
    n (opt_get "quantity" (find_position d.symbol (array_or_empty d.hook.portfolio.positions)))

unfoldable pub buying_power : Desk → Number
buying_power d = n d.hook.portfolio.cash_balance

unfoldable pub live_price : Desk → Number
live_price d = n (lookup "price" (find d.symbol (market_map d.market [])))

-- What the ticket gets.
unfoldable pub props : Desk → Props
unfolding live_price buying_power shares_owned
props d = record {
  symbol = d.symbol;
  live_price = number (live_price d);
  buying_power = buying_power d;
  shares_owned = shares_owned d;
}

-- `slice(0, n)`.
unfoldable pub slice : ℕ → Items → Items
slice zero xs = nil
slice (suc n) nil = nil
slice (suc n) (cons x xs) = cons x (slice n xs)

unfoldable pub load_trades : Desk → Desk
load_trades d = record d { loads = suc d.loads }

-- The answer to a call of `getTrades`.
unfoldable pub trades_answer : Reply → Desk → Desk
unfolding slice
trades_answer (failed err) d = record d { loads = d.loads - 1 }
trades_answer (replied res) d = elim (opt_get "trades" res) [
  | array xs ↦ record d { loads = d.loads - 1; trades = slice 12 xs }
  | _ ↦ record d { loads = d.loads - 1; trades = nil }
]

-- The listeners of tradeService, and `onPlaced`: both start the two calls.
unfoldable pub reload : Desk → Desk
unfolding load_trades
reload d = load_trades (record d { hook = fetch_portfolio d.hook })

unfoldable pub click : (Value → Number) → Desk → Desk
unfolding props
click convert d = record d { ticket = submit convert (props d) d.ticket }

-- A reply to an order: `executeTrade` notifies the listeners, and the ticket calls `onPlaced`
-- unless its success toast throws.
unfoldable pub order_answer : Reply → Desk → Desk
unfolding reload
order_answer (failed err) d = record d { ticket = Trade.answer (failed err) d.ticket }
order_answer (replied res) d =
    let settled = record (reload d) { ticket = Trade.answer (replied res) d.ticket } in
    elim (get "action" res) [ none ↦ settled | some action ↦ reload settled ]
