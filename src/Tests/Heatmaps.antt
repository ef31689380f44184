-- ===== src/Tests/Heatmaps.antt =====
-- The volatility charts, the account page, the trading page and the details panel at concrete inputs.
use algorithmic_trading_simu.Prelude.{
  ◌+◌, ◌≡◌, ◌↔◌, ◌⊎◌, ◌&&◌, refl, true, false, some, none, [], ◌∷◌, ◌++◌, arith, List,
}
use algorithmic_trading_simu.Prelude.Int.{pos, ltb_ℤ}
use algorithmic_trading_simu.Js.{
  Value, Number, nan, null, string, object, nil, end, field, opt_get, lookup,
}
use algorithmic_trading_simu.Auth.{initial_state, failed, replied}
use algorithmic_trading_simu.Heatmap.{Map, cell_at, fill}
use algorithmic_trading_simu.Heatmap.Hovering.{covers, cell_at-covers}
use algorithmic_trading_simu.Surface
use algorithmic_trading_simu.Surface.Turning.{Single, run-turns}
use algorithmic_trading_simu.Account.{open_page, complained, password_answer}
use algorithmic_trading_simu.Account.Changing.{refused_change}
use algorithmic_trading_simu.Api.Message.{Render, api_message, api_rejection}
use algorithmic_trading_simu.Portfolio
use algorithmic_trading_simu.Portfolio.{portfolio_of, get_portfolio}
use algorithmic_trading_simu.Holdings.Details.{
  Details, select, asked_of, answer, shown_signal, select_then_answer,
}
use algorithmic_trading_simu.Trade
use algorithmic_trading_simu.Trade.Desk.{Desk, order_answer}
use algorithmic_trading_simu.Trade.Desk.Reloading.{portfolio_answer, executed_order}

-- Two columns of 100 pixels and one row of 58.
abbrev smile : Map
smile = record {
  iv = (pos 20 ∷ pos 30 ∷ []) ∷ [];
  zmin = pos 20;
  zmax = pos 30;
  width = 266;
  height = 100;
}

cell_at-covers_example :
    let f = fill smile 0 1 (pos 30) in
    (cell_at smile 160 40 ≡ some (1, 0)) ↔ ((covers smile f 320 80 && covers smile f 321 81) ≡ true)
cell_at-covers_example =
    cell_at-covers smile 1 0 160 40 (pos 30) (omega arith) (omega arith) (omega arith) (omega arith)

abbrev render : Render
render = record { to_text = λ v. "text"; stringify = λ v. "json" }

abbrev refusal : Value
refusal = object (field "detail" (string "Current password is incorrect") end)

refused_change_example :
    let err = api_rejection (api_message render 400 refusal) 400 refusal in
    (opt_get "message" err ≡ string "Current password is incorrect")
    × ((password_answer (failed err) (open_page initial_state)).toasts
        ≡ [] ++ complained (string "Could not change password") ∷ [])
    × ((password_answer (failed err) (open_page initial_state)).saving ≡ false)
unfolding lookup
refused_change_example =
    refused_change render 400 refusal "Current password is incorrect" (open_page initial_state) refl
      refl

abbrev no_text : Value → Number
no_text v = nan

abbrev desk : Desk
desk = record {
  symbol = "ACME";
  market = [];
  hook = Portfolio.start;
  ticket = Trade.start;
  trades = nil;
  loads = 0;
}

abbrev receipt : Value
receipt = object (field "action" (string "BUY") end)

executed_order_example :
    let placed = order_answer (replied receipt) desk in
    let e =
      portfolio_answer no_text
        (replied (object end))
        (portfolio_answer no_text (failed null) placed) in
    (placed.hook.unanswered ≡ 2)
    × (placed.loads ≡ 0 + 2)
    × (e.hook.portfolio ≡ portfolio_of (get_portfolio no_text (object end)))
    × (e.hook.error ≡ null)
    × (e.hook.loading ≡ false)
    × (e.hook.unanswered ≡ 0)
unfolding lookup get_portfolio
executed_order_example =
    executed_order no_text receipt (string "BUY") (object end) (failed null) desk refl refl refl

-- It spins, is dragged far down, and let go.
abbrev drag : List Surface.Event
drag =
    Surface.frame 2
    ∷ Surface.downs (pos 10) (pos 10)
    ∷ Surface.moves (pos 10) (pos 900)
    ∷ Surface.ups
    ∷ []

run-turns_example :
    let v = Surface.run (Surface.set_surface (Surface.set_spin true (Surface.mounted true))) drag in
    Single v
    × ((v.spin && Surface.is_none v.drag ≡ false) ⊎ (v.frames ≡ v.raf ∷ []))
    × (ltb_ℤ v.pitch Surface.lowest ≡ false)
    × (ltb_ℤ Surface.highest v.pitch ≡ false)
run-turns_example = run-turns true drag

abbrev held : Details
held = record {
  symbol = "ACME";
  position = object end;
  live_signal = none;
  signal_data = object (field "signal" (string "BUY") end);
  loading_signal = false;
}

abbrev other : Value
other = object (field "signal" (string "SELL") end)

select_then_answer_example :
    let p = select "BETA" other none held in
    let a = asked_of (record held { symbol = "BETA"; position = other; live_signal = none }) in
    (shown_signal (answer a (replied other) p) ≡ string "SELL")
    × (shown_signal (answer a (failed null) p) ≡ string "BUY")
    × ((answer a (failed null) p).loading_signal ≡ false)
unfolding lookup
select_then_answer_example =
    select_then_answer held "BETA" other null other "BUY" "SELL" refl refl refl refl refl
