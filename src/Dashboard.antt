-- ===== src/Dashboard.antt =====
-- pages/Dashboard.jsx: what the page shows of the portfolio hook and of the performance.
use algorithmic_trading_simu.Prelude.{
  ◌==◌, ◌≡◌, ◌≢◌, refl, Bool, true, false, ◌&&◌, List, [], ◌∷◌, if◌then◌else◌, arith, Bool-cases,
  inl, inr,
}
use algorithmic_trading_simu.Js.{Number, Value, Items, nil, cons, truthy, opt_get}
use algorithmic_trading_simu.Auth.{Reply, replied, failed}
use algorithmic_trading_simu.Holdings.{array_or_empty}
use algorithmic_trading_simu.Trade.Desk.{n}
use algorithmic_trading_simu.Portfolio.{
  Hook, start, is_success, get_portfolio, fetch_portfolio, answer, Event, fetches, answers, step,
  run,
}

-- The numbers of the page.
pub record Figures : Type 0 where
  pub positions : Items
  pub equity : Number
  pub pnl : Number
  pub unrealized : Number
  pub realized : Number
  pub pnl_pct : Number
  pub sharpe : Number

unfoldable pub figures : Hook → Value → Figures
figures h perf = record {
  positions = array_or_empty h.portfolio.positions;
  equity = n h.portfolio.total_equity;
  pnl = n h.portfolio.total_pnl;
  unrealized = n h.portfolio.unrealized_pnl;
  realized = n h.portfolio.realized_pnl;
  pnl_pct = n h.portfolio.pnl_percentage;
  sharpe = n (opt_get "sharpe_ratio" (opt_get "metrics" perf));
}

pub data View : Type 0 where
  spinner : View
  failure : Value → View
  page : Figures → View

-- `positions?.length` is falsy.
abbrev pub no_items : Items → Bool
no_items nil = true
no_items (cons x xs) = false

unfoldable pub render : Hook → Value → View
unfolding figures
render h perf =
    if h.loading && no_items (array_or_empty h.portfolio.positions)
    then spinner
    else if truthy h.error
    then failure h.error
    else page (figures h perf)

-- A hook that waits for nothing is not loading.
abbrev Settled : Hook → Type 0
Settled h = h.unanswered ≡ 0 → h.loading ≡ false

answer-loading :
    (convert : Value → Number) (r : Reply) (h : Hook) → (answer convert r h).loading ≡ false
unfolding answer
answer-loading convert (failed err) h = refl
answer-loading convert (replied d) h =
    elim (Bool-cases (is_success (get_portfolio convert d).status)) [
      | inl e ↦ rw (e) refl
      | inr e ↦ rw (e) refl
    ]

step-Settled :
    (convert : Value → Number) (h : Hook) (e : Event) → Settled h → Settled (step convert h e)
unfolding step fetch_portfolio
step-Settled convert h fetches s = λ none. absurd (ground (arith, none))
step-Settled convert h (answers r) s = elim (Bool-cases (h.unanswered == 0)) [
  | inl e ↦ rw (e) s
  | inr e ↦ rw (e) (λ none. answer-loading convert r h)
]

run-Settled :
    (convert : Value → Number) (es : List Event) (h : Hook) → Settled h → Settled (run convert h es)
run-Settled convert [] h s = s
run-Settled convert (e ∷ es) h s =
    run-Settled convert es (step convert h e) (step-Settled convert h e s)

spinner_loading : (h : Hook) (perf : Value) → h.loading ≡ false → render h perf ≢ spinner
unfolding render
spinner_loading h perf e shows = ground (arith, e, shows)

-- Once every call of the hook is answered, with whatever, the dashboard has left its spinner.
render-settles :
    (convert : Value → Number) (es : List Event) (perf : Value)
    → (run convert (fetch_portfolio start) es).unanswered ≡ 0
    → render (run convert (fetch_portfolio start) es) perf ≢ spinner
unfolding fetch_portfolio
render-settles convert es perf none =
    let h = run convert (fetch_portfolio start) es in
    let first : Settled (fetch_portfolio start) = λ zero. absurd (ground (arith, zero)) in
    spinner_loading h perf (run-Settled convert es (fetch_portfolio start) first none)
