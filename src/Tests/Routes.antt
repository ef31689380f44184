-- ===== src/Tests/Routes.antt =====
-- The route table at concrete paths.
use algorithmic_trading_simu.Prelude.{◌≡◌, refl, true}
use algorithmic_trading_simu.Auth.{AuthState, initial_state}
use algorithmic_trading_simu.App.{
  render, trade, table_get, protected_route, public_only_route, navigate,
}
use algorithmic_trading_simu.App.Guards.{Settles, render-Settles, render_guarded, is_shell}

abbrev visitor : AuthState
visitor = record initial_state { has_hydrated = true }

abbrev trader : AuthState
trader = record initial_state { has_hydrated = true; is_authenticated = true }

visitor_trade : render visitor "/trade" ≡ navigate "/login"
unfolding render table_get protected_route public_only_route
visitor_trade = refl

render-Settles_example : Settles visitor "/nowhere"
render-Settles_example = render-Settles visitor "/nowhere" refl

render_guarded_example : (trader.has_hydrated ≡ true) × (trader.is_authenticated ≡ is_shell trade)
unfolding render table_get protected_route public_only_route
render_guarded_example = render_guarded trader "/trade" trade refl
