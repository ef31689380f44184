-- ===== src/Portfolio.antt =====
-- The portfolio: services/portfolioService.js and hooks/usePortfolio.js.
pub mod Fetching
use algorithmic_trading_simu.Prelude.{
  ℕ, suc, ◌-◌, Bool, true, false, String, str_eq, List, [], ◌∷◌, if◌then◌else◌, ◌==◌,
}
use algorithmic_trading_simu.Prelude.Int.{pos}
use algorithmic_trading_simu.Js.{
  Number, finite, Value, undefined, null, number, string, array, object, nil, end, truthy_number,
  or_else, coalesce, opt_get, to_number,
}
use algorithmic_trading_simu.Auth.{Reply, replied, failed}

-- What `getPortfolio` returns.
pub record Summary : Type 0 where
  pub status : Value
  pub positions : Value
  pub total_equity : Number
  pub cash_balance : Number
  pub market_value : Number
  pub total_pnl : Number
  pub unrealized_pnl : Number
  pub realized_pnl : Number
  pub pnl_percentage : Number

abbrev pub zero_value : Value
zero_value = number (finite (pos 0))

unfoldable pub get_portfolio : (Value → Number) → Value → Summary
get_portfolio convert reply =
    let body = or_else reply (object end) in
    let summary = or_else (opt_get "summary" body) (object end) in
    record {
      status = or_else (opt_get "status" body) (string "success");
      positions = or_else (opt_get "positions" body) (array nil);
      total_equity = to_number convert (coalesce (opt_get "total_equity" body) zero_value);
      cash_balance = to_number convert (coalesce (opt_get "cash_balance" body) zero_value);
      market_value = to_number convert (coalesce (opt_get "market_value" body) zero_value);
      total_pnl =
          to_number convert (
            coalesce (opt_get "total_pnl" body)
              (coalesce (opt_get "total_pnl" summary) zero_value));
      unrealized_pnl = to_number convert (
          coalesce (opt_get "unrealized_pnl" body)
            (coalesce (opt_get "unrealized_pnl" summary) zero_value));
      realized_pnl = to_number convert (
          coalesce (opt_get "realized_pnl" body)
            (coalesce (opt_get "realized_pnl" summary) zero_value));
      pnl_percentage = to_number convert (coalesce (opt_get "pnl_percentage" body) zero_value);
    }

-- The hook's `portfolio`. Its first value has no cash balance and no market value.
pub record Portfolio : Type 0 where
  pub positions : Value
  pub total_equity : Value
  pub cash_balance : Value
  pub market_value : Value
  pub total_pnl : Value
  pub unrealized_pnl : Value
  pub realized_pnl : Value
  pub pnl_percentage : Value

-- The hook's state, and how many of its calls of `getPortfolio` are unanswered.
pub record Hook : Type 0 where
  pub portfolio : Portfolio
  pub loading : Bool
  pub error : Value
  pub unanswered : ℕ

abbrev pub start : Hook
start = record {
  portfolio = record {
    positions = array nil;
    total_equity = zero_value;
    cash_balance = undefined;
    market_value = undefined;
    total_pnl = zero_value;
    unrealized_pnl = zero_value;
    realized_pnl = zero_value;
    pnl_percentage = zero_value;
  };
  loading = true;
  error = null;
  unanswered = 0;
}

-- `n || 0`.
abbrev pub or_zero : Number → Value
or_zero n = if truthy_number n then number n else zero_value

unfoldable pub portfolio_of : Summary → Portfolio
portfolio_of res = record {
  positions = or_else res.positions (array nil);
  total_equity = or_zero res.total_equity;
  cash_balance = or_zero res.cash_balance;
  market_value = or_zero res.market_value;
  total_pnl = or_zero res.total_pnl;
  unrealized_pnl = or_zero res.unrealized_pnl;
  realized_pnl = or_zero res.realized_pnl;
  pnl_percentage = or_zero res.pnl_percentage;
}

-- `res.status !== "success"`, negated.
abbrev pub is_success : Value → Bool
is_success (string s) = str_eq s "success"
is_success _ = false

-- `fetchPortfolio`, up to its `await`.
unfoldable pub fetch_portfolio : Hook → Hook
fetch_portfolio h = record h { loading = true; unanswered = suc h.unanswered }

-- The rest of it.
unfoldable pub answer : (Value → Number) → Reply → Hook → Hook
unfolding get_portfolio portfolio_of
answer convert (failed err) h = record h {
  error = or_else (opt_get "message" err) (string "Failed to fetch portfolio");
  loading = false;
  unanswered = h.unanswered - 1;
}
answer convert (replied d) h =
    let res = get_portfolio convert d in
    let done = record h { loading = false; unanswered = h.unanswered - 1 } in
    if is_success res.status
    then record done { portfolio = portfolio_of res; error = null }
    else record done { error = string "Invalid portfolio response" }

-- A fetch starts when the component mounts, after each trade and on `refresh`.
pub data Event : Type 0 where
  fetches : Event
  answers : Reply → Event

-- A reply comes only while a call is unanswered.
unfoldable pub step : (Value → Number) → Hook → Event → Hook
unfolding fetch_portfolio answer
step convert h fetches = fetch_portfolio h
step convert h (answers r) = if h.unanswered == 0 then h else answer convert r h

abbrev pub run : (Value → Number) → Hook → List Event → Hook
run convert h [] = h
run convert h (e ∷ es) = run convert (step convert h e) es
