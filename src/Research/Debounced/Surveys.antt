-- ===== src/Research/Debounced/Surveys.antt =====
-- The four pages: pages/VolSurface.jsx, VolForecast.jsx, Backtester.jsx and Predictor.jsx. A number of
-- a form counts hundredths; the quotient of a number by 100 is a parameter.
use algorithmic_trading_simu.Prelude.Int.{pos, negsuc}
use algorithmic_trading_simu.Js.{
  Number, finite, Value, number, string, Fields, end, field, lookup, to_number,
}
use algorithmic_trading_simu.Research.{whole}
use algorithmic_trading_simu.Research.Debounced.{Settings}

-- What getVolSurface is called with; getVolForecast is called with a horizon as well.
pub record SurfaceParams : Type 0 where
  pub s : Number
  pub r : Number
  pub base_vol : Number
  pub skew : Number
  pub curv : Number
  pub term : Number

pub record ForecastParams : Type 0 where
  pub surface : SurfaceParams
  pub horizon : Number

-- The fields from `spot` to `term`, which the two volatility pages have in common, before others.
abbrev pub surface_defaults : Fields → Fields
surface_defaults rest = field "spot" (whole 100) (
    field "rPct" (whole 4) (
      field "baseVolPct" (whole 22) (
        field "skew" (number (finite (negsuc 15)))
          (field "curv" (number (finite (pos 70))) (field "term" (number (finite (pos 5))) rest)))))

unfoldable pub surface_params : (Value → Number) → (Number → Number) → Fields → SurfaceParams
surface_params convert percent form = record {
  s = to_number convert (lookup "spot" form);
  r = percent (to_number convert (lookup "rPct" form));
  base_vol = percent (to_number convert (lookup "baseVolPct" form));
  skew = to_number convert (lookup "skew" form);
  curv = to_number convert (lookup "curv" form);
  term = to_number convert (lookup "term" form);
}

unfoldable pub forecast_params : (Value → Number) → (Number → Number) → Fields → ForecastParams
unfolding surface_params
forecast_params convert percent form = record {
  surface = surface_params convert percent form;
  horizon = to_number convert (lookup "horizon" form);
}

abbrev pub vol_surface : (Value → Number) → (Number → Number) → Settings SurfaceParams
vol_surface convert percent = record {
  defaults = surface_defaults end;
  wait = 260;
  params = surface_params convert percent;
}

abbrev pub vol_forecast : (Value → Number) → (Number → Number) → Settings ForecastParams
vol_forecast convert percent = record {
  defaults = surface_defaults (field "horizon" (whole 5) end);
  wait = 260;
  params = forecast_params convert percent;
}

-- The other two send the form itself.
abbrev pub backtester : Settings Fields
backtester = record {
  defaults = field "symbol" (string "AAPL") (
      field "strategy" (string "sma") (
        field "fast" (whole 20) (
          field "slow" (whole 50) (
            field "rsi_period" (whole 14) (
              field "rsi_buy" (whole 30) (
                field "rsi_sell" (whole 55) (
                  field "cost_bps" (whole 5)
                    (field "years" (whole 3) (field "initial" (whole 100000) end)))))))));
  wait = 260;
  params = λ form. form;
}

abbrev pub predictor : Settings Fields
predictor = record {
  defaults = field "symbol" (string "AAPL") (
      field "years" (whole 4) (
        field "n_estimators" (whole 80) (
          field "max_depth" (whole 6)
            (field "cost_bps" (whole 2) (field "mc_sims" (whole 400) end)))));
  wait = 400;
  params = λ form. form;
}
