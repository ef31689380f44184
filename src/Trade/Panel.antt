-- ===== src/Trade/Panel.antt =====
-- components/trading/TradingPanel.jsx, the other order form: its inputs, the validation, an order and
-- its answer. `Number` and `String` of other values are parameters.
pub mod Replies
use algorithmic_trading_simu.Prelude.{
  ℕ, suc, ◌-◌, Bool, true, false, not, ◌&&◌, ◌||◌, Option, none, some, String, str_eq, List, [],
  ◌∷◌, ◌++◌, if◌then◌else◌, ◌==◌,
}
use algorithmic_trading_simu.Prelude.Int.{pos, ltb_ℤ}
use algorithmic_trading_simu.Js.{
  Number, finite, infinity, neg_infinity, nan, Value, string, truthy, or_else, opt_get, to_number,
}
use algorithmic_trading_simu.Auth.{Reply, replied, failed}
use algorithmic_trading_simu.Trade.{Side, OrderType, market, is_limit, Order, trade_error}

-- The state of the component, the orders that it sent and how many of them are unanswered. `success`
-- holds the data whose symbol and action the message names.
pub record Panel : Type 0 where
  pub symbol : String
  pub quantity : Number
  pub order_type : OrderType
  pub limit_price : String
  pub loading : Bool
  pub error : Option String
  pub success : Option Value
  pub sent : List Order
  pub unanswered : ℕ

abbrev pub opened : Panel
opened = record {
  symbol = "AAPL";
  quantity = finite (pos 1);
  order_type = market;
  limit_price = "";
  loading = false;
  error = none;
  success = none;
  sent = [];
  unanswered = 0;
}

-- `n <= 0` on a number.
abbrev pub at_most_zero : Number → Bool
at_most_zero (finite n) = not (ltb_ℤ (pos 0) n)
at_most_zero neg_infinity = true
at_most_zero _ = false

-- `Math.max(1, n)` on a number.
abbrev pub at_least_one : Number → Number
at_least_one (finite n) = if ltb_ℤ (pos 1) n then finite n else finite (pos 1)
at_least_one neg_infinity = finite (pos 1)
at_least_one n = n

unfoldable pub limit_error : (Value → Number) → Panel → Option String
limit_error convert p =
    if is_limit p.order_type
      && (str_eq p.limit_price "" || at_most_zero (convert (string p.limit_price)))
    then some "Invalid limit price"
    else none

unfoldable pub validate : (Value → Number) → Panel → Option String
unfolding limit_error
validate convert p =
    if str_eq p.symbol ""
    then some "Symbol required"
    else if at_most_zero p.quantity
    then some "Invalid quantity"
    else limit_error convert p

abbrev pub payload : (Value → Number) → Side → Panel → Order
payload convert action p = record {
  symbol = p.symbol;
  action = action;
  quantity = p.quantity;
  order_type = p.order_type;
  limit_price = if is_limit p.order_type then some (convert (string p.limit_price)) else none;
}

-- `handleTrade`, up to its `await`.
unfoldable pub handle_trade : (Value → Number) → Side → Panel → Panel
unfolding validate
handle_trade convert action p = if p.loading then p else elim (validate convert p) [
  | some message ↦ record p { error = some message }
  | none ↦ record p {
    loading = true;
    error = none;
    success = none;
    sent = p.sent ++ payload convert action p ∷ [];
    unanswered = suc p.unanswered;
  }
]

-- The `catch` and the `finally`, for an error with that message.
unfoldable pub complain : String → Panel → Panel
complain message p = record p {
  error = some (if str_eq message "" then "Trade failed" else message);
  loading = false;
  unanswered = p.unanswered - 1;
}

-- The message of `new Error(value)`.
abbrev pub error_message : (Value → String) → Value → String
error_message to_text (string s) = s
error_message to_text v = to_text v

-- The rest of `handleTrade`, with the reply of `apiClient.post` inside `executeTrade`.
unfoldable pub answer : (Value → String) → Reply → Panel → Panel
unfolding complain
answer to_text (failed err) p = complain (trade_error err) p
answer to_text (replied res) p =
    let found = or_else (opt_get "data" res) res in
    if truthy found && truthy (opt_get "success" found)
    then record p {
      success = some found;
      quantity = finite (pos 1);
      limit_price = "";
      loading = false;
      unanswered = p.unanswered - 1;
    }
    else complain
        (error_message to_text (or_else (opt_get "message" found) (string "Trade failed"))) p

-- The inputs, the two buttons and the server. The buttons are disabled while an order is sent, which
-- `handle_trade` tests as well.
pub data Event : Type 0 where
  set_symbol set_quantity set_limit_price : String → Event
  set_order_type : OrderType → Event
  clicks : Side → Event
  answers : Reply → Event

unfoldable pub step : (Value → Number) → (Value → String) → Panel → Event → Panel
unfolding handle_trade answer
step convert to_text p (set_symbol s) = record p { symbol = s }
step convert to_text p (set_quantity v) = record p { quantity = at_least_one (convert (string v)) }
step convert to_text p (set_limit_price v) = record p { limit_price = v }
step convert to_text p (set_order_type o) = record p { order_type = o }
step convert to_text p (clicks action) = handle_trade convert action p
step convert to_text p (answers r) = if p.unanswered == 0 then p else answer to_text r p

abbrev pub run : (Value → Number) → (Value → String) → Panel → List Event → Panel
run convert to_text p [] = p
run convert to_text p (e ∷ es) = run convert to_text (step convert to_text p e) es
