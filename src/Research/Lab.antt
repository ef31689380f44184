-- ===== src/Research/Lab.antt =====
-- pages/QuantLab.jsx: the figures on the cards. The function that is given to `setStats` runs while
-- React renders, so that a TypeError of `pick` in it is not the promise's, but ends the page. The
-- requests' amounts count hundredths.
pub mod Cards
use Prim.Native.String.{◌++◌}
use algorithmic_trading_simu.Prelude.{
  ℕ, ◌*◌, ◌>>=◌, Bool, true, false, not, ◌&&◌, ◌||◌, Option, none, some, String, str_eq, List, [],
  ◌∷◌,
}
use algorithmic_trading_simu.Prelude.Int.{pos, negsuc}
use algorithmic_trading_simu.Js.{
  Number, finite, Value, string, number, object, Fields, end, field, insert, get, to_number,
}
use algorithmic_trading_simu.Auth.{Reply, replied, failed}
use algorithmic_trading_simu.Research.{whole}

-- `MODULES`.
pub data Module : Type 0 where
  options vol forecast backtest predict sentiment : Module

abbrev pub modules : List Module
modules = options ∷ vol ∷ forecast ∷ backtest ∷ predict ∷ sentiment ∷ []

abbrev pub key : Module → String
key options = "options"
key vol = "vol"
key forecast = "forecast"
key backtest = "backtest"
key predict = "predict"
key sentiment = "sentiment"

abbrev pub label : Module → String
label options = "MC call price"
label vol = "ATM vol"
label forecast = "5-day ATM forecast"
label backtest = "AAPL EMA Sharpe"
label predict = "AAPL directional acc"
label sentiment = "Signal t-stat"

abbrev pub hundredths : ℕ → Value
hundredths n = number (finite (pos n))

-- The smile that two modules ask for.
abbrev pub smile : Fields → Fields
smile rest = field "s" (whole 100) (
    field "r" (hundredths 4) (
      field "base_vol" (hundredths 22) (
        field "skew" (number (finite (negsuc 15)))
          (field "curv" (hundredths 70) (field "term" (hundredths 5) rest)))))

-- What `fetch` sends.
abbrev pub request : Module → Fields
request options = field "s" (whole 100) (
    field "k" (whole 100) (
      field "t" (whole 1) (
        field "r" (hundredths 5) (
          field "sigma" (hundredths 20)
            (field "kind" (string "call") (field "n" (whole 20000) end))))))
request vol = smile end
request forecast = smile (field "horizon" (whole 5) end)
request backtest = field "symbol" (string "AAPL") (
    field "strategy" (string "ema") (
      field "fast" (whole 20)
        (field "slow" (whole 50) (field "cost_bps" (whole 5) (field "years" (whole 3) end)))))
request predict = field "symbol" (string "AAPL") (
    field "years" (whole 4) (
      field "n_estimators" (whole 50)
        (field "max_depth" (whole 6) (field "mc_sims" (whole 150) end))))
request sentiment = field "symbol" (string "AAPL") end

-- `Number(v).toFixed(digits)`.
module _ (convert : Value → Number) (to_fixed : ℕ → Number → String) where
  unfoldable pub fixed : ℕ → Value → String
  fixed digits v = to_fixed digits (to_number convert v)

  -- `pick`: none is a TypeError.
  unfoldable pub pick : Module → Value → Option String
  unfolding fixed
  pick options d = do mc ← get "mc" d; price ← get "price" mc; some ("$" ++ fixed 2 price)
  pick vol d = do atm ← get "atm_vol" d; some (fixed 1 atm ++ "%")
  pick forecast d = do atm ← get "forecast_atm" d; some (fixed 1 atm ++ "%")
  pick backtest d = do
    metrics ← get "metrics" d
    sharpe ← get "sharpe" metrics
    some (fixed 2 sharpe)
  pick predict d = do
    metrics ← get "metrics" d
    acc ← get "directional_acc" metrics
    some (fixed 1 acc ++ "%")
  pick sentiment d = do
    study ← get "event_study" d
    signal ← get "signal" study
    t_stat ← get "t_stat" signal
    some (fixed 2 t_stat)

  -- `{ value: …, label: … }`.
  abbrev pub stat : String → Module → Value
  stat t m = object (field "value" (string t) (field "label" (string (label m)) end))

  -- Setting the figure of a card when its reply is there: none is a page that ended in an error.
  unfoldable pub settle_card : Module → Reply → Fields → Option Fields
  unfolding pick
  settle_card m (replied d) stats = do t ← pick m d; some (insert (key m) (stat t m) stats)
  settle_card m (failed err) stats = some (insert (key m) (stat "—" m) stats)

  -- The replies, in the order in which they arrive.
  unfoldable pub arrive : (Module → Reply) → Module → Option Fields → Option Fields
  unfolding settle_card
  arrive server m none = none
  arrive server m (some stats) = settle_card m (server m) stats

  abbrev pub run : (Module → Reply) → Option Fields → List Module → Option Fields
  run server lab [] = lab
  run server lab (m ∷ ms) = run server (arrive server m lab) ms
