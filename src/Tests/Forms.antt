-- ===== src/Tests/Forms.antt =====
-- The registration form and the trading panel at concrete entries.
use algorithmic_trading_simu.Prelude.{
  ◌≡◌, refl, true, none, some, String, List, [], ◌∷◌, ◌++◌, if◌then◌else◌,
}
use algorithmic_trading_simu.Prelude.Int.{pos}
use algorithmic_trading_simu.Js.{
  Number, finite, nan, Value, Fields, undefined, number, string, object, end, field, lookup,
}
use algorithmic_trading_simu.Auth.{AuthState, initial_state, replied}
use algorithmic_trading_simu.SignIn.Arrival.{Arrives}
use algorithmic_trading_simu.SignIn.Registering.{
  Event, set_username, set_password, set_confirm, set_agree, clicks, answers, run, blank, all_long,
  run-registered,
}
use algorithmic_trading_simu.Trade
use algorithmic_trading_simu.Trade.{Side, buy, succeeded, start}
use algorithmic_trading_simu.Trade.Panel.{
  opened, payload, handle_trade, answer, validate, limit_error,
}
use algorithmic_trading_simu.Trade.Panel.Replies.{executed_as_failed}

abbrev trim : String → String
trim s = s

abbrev hydrated : AuthState
hydrated = record initial_state { has_hydrated = true }

abbrev session : Value
session = object (field "access_token" (string "t") (field "user" (string "ann") end))

abbrev visit : List Event
visit =
    set_username "ann"
    ∷ set_password "correct horse"
    ∷ set_confirm "correct horse"
    ∷ set_agree true
    ∷ clicks
    ∷ answers (replied session)
    ∷ []

run-registered_example :
    let f = run trim undefined (blank hydrated) visit in
    (f.unanswered ≡ (if f.loading then 1 else 0))
    × (all_long f.sent ≡ true)
    × Arrives f.location f.auth
run-registered_example = run-registered trim undefined hydrated visit refl

abbrev convert : Value → Number
convert v = nan

abbrev to_text : Value → String
to_text v = "?"

-- A reply with the fields of an executed trade.
abbrev executed : Fields
executed = field "id" (number (finite (pos 7))) (
    field "symbol" (string "AAPL")
      (field "action" (string "BUY") (field "status" (string "FILLED") end)))

executed_as_failed_example :
    let order = payload convert buy opened in
    let q = answer to_text (replied (object executed)) (handle_trade convert buy opened) in
    (q.error ≡ some "Trade failed")
    × (q.success ≡ none)
    × ((handle_trade convert buy q).sent ≡ (opened.sent ++ order ∷ []) ++ order ∷ [])
    × ((Trade.answer (replied (object executed)) start).toasts
        ≡ start.toasts ++ succeeded (object executed) ∷ [])
unfolding validate limit_error lookup
executed_as_failed_example =
    executed_as_failed convert to_text buy opened executed start refl refl refl refl refl
