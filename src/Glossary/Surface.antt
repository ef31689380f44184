-- ===== src/Glossary/Surface.antt =====
-- The entries of utils/glossary.js from `volSurface` to `exposure`.
use algorithmic_trading_simu.Prelude.{none, some, String, List, [], ◌∷◌}
use algorithmic_trading_simu.Glossary.Shape.{Entry}

abbrev pub surface_entries : List (String × Entry)
surface_entries =
    (
      "volSurface",
      record {
        title = "Neural Volatility Surface";
        subtitle = some "Implied vol across strikes x expiries";
        what =
            "Each point is the Black-Scholes implied volatility that reprices a European option at a given strike and expiry. The surface is reconstructed by inverting a parametric market-price grid with a Newton-Raphson solver, then smoothed into a clean fit.";
        formula = none;
        points =
            "X axis = moneyness (strike / spot); Y axis = time to expiry; Z / color = implied vol."
            ∷ "The downward tilt toward low strikes is the equity skew (crash insurance is dear)."
            ∷ "Vol rising with maturity is the term structure of volatility." ∷ [];
        interpretation =
            some
              "Desks price and risk-manage every option off this surface; its shape encodes the market's view of future risk.";
      },
    )
    ∷ (
      "impliedVol",
      record {
        title = "Implied Volatility";
        subtitle = none;
        what =
            "The volatility input that makes the Black-Scholes price equal the observed market price.";
        formula = some "solve sigma: BS(S,K,T,r,sigma) = market price";
        points = [];
        interpretation =
            some "Higher implied vol = richer option premium = more expected movement priced in.";
      },
    )
    ∷ (
      "volSkew",
      record {
        title = "Volatility Skew";
        subtitle = none;
        what =
            "The slope of implied vol across strikes at a fixed expiry. Equity markets skew negative - low strikes carry higher vol.";
        formula = some "IV(90% strike) - IV(110% strike)";
        points = [];
        interpretation = some "A steeper skew signals stronger demand for downside protection.";
      },
    )
    ∷ (
      "termStructure",
      record {
        title = "ATM Term Structure";
        subtitle = none;
        what = "At-the-money implied vol as a function of time to expiry.";
        formula = none;
        points = [];
        interpretation =
            some "Upward-sloping = calm now, more uncertainty later; inverted = near-term stress.";
      },
    )
    ∷ (
      "volForecast",
      record {
        title = "Vol Surface Forecaster";
        subtitle = some "AR(1) factor dynamics + confidence band";
        what =
            "Forecasts how the implied-vol surface evolves over the next few days. Surface dynamics are decomposed into three interpretable factors - ATM level, skew, and term slope - each modeled as a mean-reverting AR(1) / Ornstein-Uhlenbeck process fit to its history. The factors are forecast h days ahead and the surface is rebuilt from them.";
        formula = none;
        points =
            "Solid line = today; dashed = forecast. The shaded band is the 95% confidence interval."
            ∷ "Vol mean-reverts: high vol drifts down toward its long-run level, low vol drifts up."
            ∷ "The band widens with horizon as forecast uncertainty compounds." ∷ [];
        interpretation =
            some
              "Forecasting the surface lets a desk pre-position vega and hedge gamma before the move, not after.";
      },
    )
    ∷ (
      "forecastBand",
      record {
        title = "95% Confidence Band";
        subtitle = none;
        what =
            "The range the forecast ATM vol is expected to fall within 95% of the time, from the AR(1) forecast variance.";
        formula = some "Var(h) = sigma^2 (1 - phi^2h) / (1 - phi^2)";
        points = [];
        interpretation = some "Wider band = less certainty. It grows with the forecast horizon.";
      },
    )
    ∷ (
      "backtest",
      record {
        title = "Strategy Backtester";
        subtitle = some "Rule-based strategy vs buy-and-hold";
        what =
            "Simulates a trading rule bar-by-bar over historical prices with realistic transaction costs, then compares the resulting equity curve against simply buying and holding the asset. Signals are shifted one bar before they trade, so there is no lookahead bias.";
        formula = none;
        points =
            "Equity curve = how $100k would have grown following the strategy."
            ∷ "The benchmark is buy-and-hold of the same asset over the same window."
            ∷ "Alpha is the strategy total return minus the benchmark total return." ∷ [];
        interpretation =
            some
              "A good strategy beats buy-and-hold on a risk-adjusted basis (higher Sharpe, shallower drawdown), not just on raw return.";
      },
    )
    ∷ (
      "cagr",
      record {
        title = "CAGR";
        subtitle = none;
        what =
            "Compound annual growth rate - the smoothed yearly return that would produce the same final equity.";
        formula = some "(end / start)^(1/years) - 1";
        points = [];
        interpretation = none;
      },
    )
    ∷ (
      "sortino",
      record {
        title = "Sortino Ratio";
        subtitle = none;
        what = "Like Sharpe, but penalizes only downside volatility - it ignores upside swings.";
        formula = some "mean return / downside deviation x sqrt(252)";
        points = [];
        interpretation =
            some "Higher is better; rewards strategies whose volatility is mostly to the upside.";
      },
    )
    ∷ (
      "calmar",
      record {
        title = "Calmar Ratio";
        subtitle = none;
        what = "Annualized return divided by the worst drawdown - return earned per unit of pain.";
        formula = some "CAGR / |max drawdown|";
        points = [];
        interpretation = some "Above ~1 is solid; above 3 is excellent.";
      },
    )
    ∷ (
      "alpha",
      record {
        title = "Alpha vs Buy-and-Hold";
        subtitle = none;
        what = "Excess total return of the strategy over simply buying and holding the asset.";
        formula = none;
        points = [];
        interpretation =
            some "Positive alpha means the timing rules added value beyond the market move.";
      },
    )
    ∷ (
      "exposure",
      record {
        title = "Exposure";
        subtitle = none;
        what = "Share of the backtest period the strategy was actually invested (in the market).";
        formula = none;
        points = [];
        interpretation =
            some "Lower exposure with similar returns means capital was at risk less of the time.";
      },
    )
    ∷ []
