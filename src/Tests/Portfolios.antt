-- ===== src/Tests/Portfolios.antt =====
-- The portfolio at concrete replies.
use algorithmic_trading_simu.Prelude.{◌≡◌, true, List, [], ◌∷◌}
use algorithmic_trading_simu.Prelude.Int.{pos}
use algorithmic_trading_simu.Js.{
  Number, finite, nan, Value, undefined, number, string, object, end, field,
}
use algorithmic_trading_simu.Auth.{replied, failed}
use algorithmic_trading_simu.Portfolio.{start, Event, fetches, answers, run}
use algorithmic_trading_simu.Portfolio.Fetching.{displayable, run-displayable}

abbrev convert : Value → Number
convert v = nan

abbrev before : Value
before = object (field "total_equity" (number (finite (pos 900))) end)

abbrev later : Value
later =
    object (field "total_equity" (number (finite (pos 950))) (field "total_pnl" (string "?") end))

abbrev visit : List Event
visit = fetches ∷ answers (replied later) ∷ fetches ∷ answers (failed undefined) ∷ []

run-displayable_example : displayable (run convert start visit).portfolio ≡ true
run-displayable_example = run-displayable convert visit
