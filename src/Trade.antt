-- ===== src/Trade.antt =====
-- Order entry: components/trading/OrderTicket.jsx and services/tradeService.js. Quantities count
-- whole shares and prices cents, so that an estimate is a count of cents, and exact: the rounding of
-- fractions of a dollar is not modelled. What the listeners of
-- tradeService do is not modelled; they do not throw.
pub mod Orders
pub mod Reasons
pub mod Panel
pub mod Desk
mod Search
use algorithmic_trading_simu.Prelude.{
  ℕ, suc, ◌-◌, Bool, true, false, not, ◌&&◌, Option, none, some, String, str_eq, List, [], ◌∷◌,
  ◌++◌, if◌then◌else◌, ltb, ◌==◌,
}
use algorithmic_trading_simu.Prelude.Int.{ℤ, pos, negsuc, ◌*ℤ◌, ltb_ℤ}
use algorithmic_trading_simu.Js.{
  Number, finite, infinity, neg_infinity, nan, Value, undefined, number, string, is_finite,
  is_positive, or_else, opt_get, get, to_number,
}
use algorithmic_trading_simu.Auth.{Reply, replied, failed}

-- `a > b` on numbers.
abbrev pub gt : Number → Number → Bool
gt (finite a) (finite b) = ltb_ℤ b a
gt (finite a) neg_infinity = true
gt infinity (finite b) = true
gt infinity neg_infinity = true
gt _ _ = false

-- `Infinity * n`, for a finite n.
abbrev pub scale_infinity : ℤ → Number
scale_infinity (pos n) = if n == 0 then nan else infinity
scale_infinity (negsuc n) = neg_infinity

abbrev pub negate_infinity : Number → Number
negate_infinity infinity = neg_infinity
negate_infinity neg_infinity = infinity
negate_infinity n = n

-- `a * b` on numbers.
unfoldable pub mul : Number → Number → Number
mul (finite a) (finite b) = finite (a *ℤ b)
mul (finite a) infinity = scale_infinity a
mul (finite a) neg_infinity = negate_infinity (scale_infinity a)
mul infinity (finite b) = scale_infinity b
mul infinity infinity = infinity
mul infinity neg_infinity = neg_infinity
mul neg_infinity (finite b) = negate_infinity (scale_infinity b)
mul neg_infinity infinity = neg_infinity
mul neg_infinity neg_infinity = infinity
mul _ _ = nan

pub data Side : Type 0 where
  buy sell : Side

pub data OrderType : Type 0 where
  market limit : OrderType

-- The properties of the component.
pub record Props : Type 0 where
  pub symbol : String
  pub live_price : Value
  pub buying_power : Number
  pub shares_owned : Number

-- What is sent to /trades.
pub record Order : Type 0 where
  pub symbol : String
  pub action : Side
  pub quantity : Number
  pub order_type : OrderType
  pub limit_price : Option Number

-- `crashed` shows the message of a TypeError.
pub data Toast : Type 0 where
  succeeded : Value → Toast
  complained : String → Toast
  crashed : Toast

-- The state of the component, the orders that it sent, how many of them are unanswered, and the
-- toasts and calls of `onPlaced` that came of it.
pub record Ticket : Type 0 where
  pub side : Side
  pub qty : Value
  pub order_type : OrderType
  pub limit_price : Value
  pub submitting : Bool
  pub sent : List Order
  pub unanswered : ℕ
  pub toasts : List Toast
  pub placed : List Value

abbrev pub start : Ticket
start = record {
  side = buy;
  qty = number (finite (pos 1));
  order_type = market;
  limit_price = string "";
  submitting = false;
  sent = [];
  unanswered = 0;
  toasts = [];
  placed = [];
}

abbrev pub is_limit : OrderType → Bool
is_limit market = false
is_limit limit = true

unfoldable pub ref_price : (Value → Number) → Props → Ticket → Value
ref_price convert p t =
    let price = to_number convert t.limit_price in
    if is_limit t.order_type && is_positive price then number price else p.live_price

unfoldable pub estimated : (Value → Number) → Props → Ticket → Number
unfolding mul ref_price
estimated convert p t =
    mul (to_number convert t.qty)
      (to_number convert (or_else (ref_price convert p t) (number (finite (pos 0)))))

-- The tests on the funds: the last two of `validationError`.
unfoldable pub funds_error : (Value → Number) → Props → Ticket → Option String
unfolding estimated
funds_error convert p t = elim t.side [
  | buy ↦
      if gt (estimated convert p t) p.buying_power then some "Insufficient buying power" else none
  | sell ↦
      if gt (to_number convert t.qty) p.shares_owned then some "Not enough shares to sell" else none
]

unfoldable pub validation_error : (Value → Number) → Props → Ticket → Option String
unfolding funds_error
validation_error convert p t =
    let n = to_number convert t.qty in
    if str_eq p.symbol ""
    then some "Select a symbol"
    else if not (is_finite n && is_positive n)
    then some "Enter a quantity"
    else if is_limit t.order_type && not (is_positive (to_number convert t.limit_price))
    then some "Enter a limit price"
    else funds_error convert p t

unfoldable pub order_of : (Value → Number) → Props → Ticket → Order
order_of convert p t = record {
  symbol = p.symbol;
  action = t.side;
  quantity = to_number convert t.qty;
  order_type = t.order_type;
  limit_price = if is_limit t.order_type then some (to_number convert t.limit_price) else none;
}

-- `submit`, up to its `await`.
unfoldable pub submit : (Value → Number) → Props → Ticket → Ticket
unfolding validation_error order_of
submit convert p t = if t.submitting then t else elim (validation_error convert p t) [
  | some message ↦ record t { toasts = t.toasts ++ complained message ∷ [] }
  | none ↦ record t {
    submitting = true;
    sent = t.sent ++ order_of convert p t ∷ [];
    unanswered = suc t.unanswered;
  }
]

-- The message of the error that `executeTrade` throws.
unfoldable pub trade_error : Value → String
trade_error err =
    let body = opt_get "data" (opt_get "response" err) in
    let detail = or_else (opt_get "detail" body) (
      or_else (opt_get "message" body) (or_else (opt_get "message" err) (string "Trade failed"))) in
    elim detail [ string s ↦ s | _ ↦ "Trade failed" ]

-- The rest of `submit`, with the reply of `apiClient.post`. A reply without an object makes the
-- success toast throw.
unfoldable pub answer : Reply → Ticket → Ticket
unfolding trade_error
answer (failed err) t = record t {
  submitting = false;
  unanswered = t.unanswered - 1;
  toasts = t.toasts ++ complained (trade_error err) ∷ [];
}
answer (replied d) t = elim (get "action" d) [
  | none ↦ record t {
    submitting = false;
    unanswered = t.unanswered - 1;
    toasts = t.toasts ++ crashed ∷ [];
  }
  | some action ↦ record t {
    submitting = false;
    unanswered = t.unanswered - 1;
    toasts = t.toasts ++ succeeded d ∷ [];
    qty = number (finite (pos 1));
    limit_price = string "";
    placed = t.placed ++ d ∷ [];
  }
]

-- What the user and the server do. The properties may differ at every click.
pub data Event : Type 0 where
  set_side : Side → Event
  set_qty set_limit_price : Value → Event
  set_order_type : OrderType → Event
  submits : Props → Event
  answers : Reply → Event

-- A reply comes only while an order is unanswered.
unfoldable pub step : (Value → Number) → Ticket → Event → Ticket
unfolding submit answer
step convert t (set_side s) = record t { side = s }
step convert t (set_qty v) = record t { qty = v }
step convert t (set_limit_price v) = record t { limit_price = v }
step convert t (set_order_type o) = record t { order_type = o }
step convert t (submits p) = submit convert p t
step convert t (answers r) = if t.unanswered == 0 then t else answer r t

abbrev pub run : (Value → Number) → Ticket → List Event → Ticket
run convert t [] = t
run convert t (e ∷ es) = run convert (step convert t e) es
