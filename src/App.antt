-- ===== src/App.antt =====
-- App.jsx and the navigation tables of components/layout/DashboardLayout.jsx: the route table, its
-- guards and the catch-all. A path is the `pathname` that react-router matches, in lower case and
-- without a trailing slash: the router itself ignores case and that slash.
pub mod Guards
use algorithmic_trading_simu.Prelude.{
  Bool, true, false, Option, none, some, String, str_eq, List, [], ◌∷◌, if◌then◌else◌,
}
use algorithmic_trading_simu.Auth.{AuthState}

pub data Page : Type 0 where
  login_page register_page : Page
  dashboard portfolio performance trade quant_lab market_regime optimizer option_pricer : Page
  vol_surface vol_forecast backtester predictor sentiment paper_account account : Page

-- What a route renders: the fallback `PageLoader`, a `<Navigate replace />`, or a page.
pub data View : Type 0 where
  page_loader : View
  navigate : String → View
  page : Page → View

unfoldable pub protected_route : AuthState → View → View
protected_route s children =
    if s.has_hydrated
    then if s.is_authenticated then children else navigate "/login"
    else page_loader

unfoldable pub public_only_route : AuthState → View → View
public_only_route s children =
    if s.has_hydrated then if s.is_authenticated then navigate "/" else children else page_loader

unfoldable pub table_get {ℓ} : {A : Type ℓ} → String → List (String × A) → Option A
table_get p [] = none
table_get p ((q, a) ∷ rest) = if str_eq q p then some a else table_get p rest

-- The routes under PublicOnlyRoute, and those of the shell under ProtectedRoute.
abbrev pub public_routes : List (String × Page)
public_routes = ("/login", login_page) ∷ ("/register", register_page) ∷ []

abbrev pub shell_routes : List (String × Page)
shell_routes =
    ("/", dashboard)
    ∷ ("/portfolio", portfolio)
    ∷ ("/performance", performance)
    ∷ ("/trade", trade)
    ∷ ("/quant", quant_lab)
    ∷ ("/regime", market_regime)
    ∷ ("/optimizer", optimizer)
    ∷ ("/options", option_pricer)
    ∷ ("/vol-surface", vol_surface)
    ∷ ("/vol-forecast", vol_forecast)
    ∷ ("/backtest", backtester)
    ∷ ("/predict", predictor)
    ∷ ("/sentiment", sentiment)
    ∷ ("/paper-account", paper_account)
    ∷ ("/account", account)
    ∷ []

unfoldable pub render : AuthState → String → View
unfolding table_get protected_route public_only_route
render s p = elim (table_get p public_routes) [
  | some pg ↦ public_only_route s (page pg)
  | none ↦ elim (table_get p shell_routes) [
    | some pg ↦ protected_route s (page pg)
    | none ↦ navigate (if s.is_authenticated then "/" else "/login")
  ]
]

-- The titles of `META`.
abbrev pub meta : List (String × String)
meta =
    ("/", "Dashboard")
    ∷ ("/portfolio", "Portfolio")
    ∷ ("/performance", "Performance")
    ∷ ("/trade", "Trade")
    ∷ ("/quant", "Quantitative Research Lab")
    ∷ ("/regime", "Market Regime")
    ∷ ("/optimizer", "Smart Portfolio Optimizer")
    ∷ ("/options", "Monte Carlo Option Pricer")
    ∷ ("/vol-surface", "Neural Volatility Surface")
    ∷ ("/vol-forecast", "Vol Surface Forecaster")
    ∷ ("/backtest", "Strategy Backtester")
    ∷ ("/predict", "Stock Return Predictor")
    ∷ ("/sentiment", "Earnings-Call Sentiment")
    ∷ ("/paper-account", "Paper Account")
    ∷ ("/account", "Account Settings")
    ∷ []

-- The title in the shell's header.
unfoldable pub title : String → String
unfolding table_get
title p = elim (table_get p meta) [ some t ↦ t | none ↦ "Dashboard" ]
