-- ===== src/Glossary/Placements.antt =====
-- Which entries the pages give to their info buttons: the keys of `GLOSSARY.…`, file by file.
use algorithmic_trading_simu.Prelude.{String, List, [], ◌∷◌, ◌++◌}

abbrev pub stock_details_panel_keys : List String
stock_details_panel_keys =
    "avgPrice" ∷ "marketValue" ∷ "totalCost" ∷ "unrealizedPnl" ∷ "trend" ∷ "momentum" ∷ "volatility"
    ∷ "sharpe" ∷ "maxDrawdown" ∷ "volatility" ∷ []

abbrev pub backtester_keys : List String
backtester_keys =
    "backtest" ∷ "totalReturn" ∷ "alpha" ∷ "cagr" ∷ "sharpe" ∷ "maxDrawdown" ∷ "sortino" ∷ "winRate"
    ∷ "profitFactor" ∷ "exposure" ∷ "backtest" ∷ "maxDrawdown" ∷ []

abbrev pub dashboard_keys : List String
dashboard_keys = "equity" ∷ "totalPnl" ∷ "unrealizedPnl" ∷ "realizedPnl" ∷ "sharpe" ∷ []

abbrev pub optimizer_keys : List String
optimizer_keys =
    "expectedReturn" ∷ "risk" ∷ "sharpe" ∷ "optimizer" ∷ "efficientFrontier" ∷ "maxSharpe"
    ∷ "minVol" ∷ []

abbrev pub option_pricer_keys : List String
option_pricer_keys =
    "optionPricer" ∷ "mcPrice" ∷ "blackScholes" ∷ "probItm" ∷ "delta" ∷ "gamma" ∷ "vega" ∷ "theta"
    ∷ "rho" ∷ "optionPricer" ∷ []

abbrev pub performance_keys : List String
performance_keys =
    "volatility" ∷ "profitFactor" ∷ "totalReturn" ∷ "sharpe" ∷ "maxDrawdown" ∷ "winRate" ∷ []

abbrev pub portfolio_keys : List String
portfolio_keys = "equity" ∷ "cash" ∷ "unrealizedPnl" ∷ "returnPct" ∷ []

abbrev pub predictor_keys : List String
predictor_keys =
    "predictor" ∷ "predictor" ∷ "directionalAcc" ∷ "infoCoeff" ∷ "rSquared" ∷ "totalReturn"
    ∷ "sharpe" ∷ "alpha" ∷ "maxDrawdown" ∷ "monteCarloResample" ∷ "featureImportance"
    ∷ "monteCarloResample" ∷ []

abbrev pub sentiment_keys : List String
sentiment_keys =
    "sentiment" ∷ "eventStudy" ∷ "infoCoeff" ∷ "directionalAcc" ∷ "eventStudy" ∷ "tStat"
    ∷ "infoCoeff" ∷ []

abbrev pub vol_forecast_keys : List String
vol_forecast_keys = "volForecast" ∷ "forecastBand" ∷ "forecastBand" ∷ "volForecast" ∷ []

abbrev pub vol_surface_keys : List String
vol_surface_keys = "volSurface" ∷ "impliedVol" ∷ "volSkew" ∷ "termStructure" ∷ "volSurface" ∷ []

-- All of them.
abbrev pub placed_keys : List String
placed_keys =
    stock_details_panel_keys ++ backtester_keys ++ dashboard_keys ++ optimizer_keys
    ++ option_pricer_keys ++ performance_keys ++ portfolio_keys ++ predictor_keys ++ sentiment_keys
    ++ vol_forecast_keys ++ vol_surface_keys
