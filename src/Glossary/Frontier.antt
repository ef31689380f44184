-- ===== src/Glossary/Frontier.antt =====
-- The entries of utils/glossary.js from `optimizer` to `totalPnl`.
use algorithmic_trading_simu.Prelude.{none, some, String, List, [], ◌∷◌}
use algorithmic_trading_simu.Glossary.Shape.{Entry}

abbrev pub frontier_entries : List (String × Entry)
frontier_entries =
    (
      "optimizer",
      record {
        title = "Smart Portfolio Optimizer";
        subtitle = some "Monte-Carlo efficient frontier";
        what =
            "Simulates thousands of randomly-weighted, long-only portfolios over your chosen basket and evaluates each on annualized return, risk, and risk-adjusted return. It then surfaces the maximum-Sharpe (tangency) and minimum-variance portfolios.";
        formula = some "ret = wᵀμ · vol = √(wᵀΣw) · Sharpe = (ret - r_f) / vol";
        points =
            "Each dot is one candidate portfolio (weights summing to 100%)."
            ∷ "X-axis = volatility (risk); Y-axis = expected return. Up-and-left is better."
            ∷ "Color encodes the Sharpe ratio — deep indigo (low) to radiant green (high)."
            ∷ "The upper-left boundary is the efficient frontier: best return per unit of risk."
            ∷ [];
        interpretation =
            some
              "Anchor allocation decisions on the two mathematically-optimal mixes rather than guesswork.";
      },
    )
    ∷ (
      "efficientFrontier",
      record {
        title = "Efficient Frontier";
        subtitle = none;
        what =
            "The set of portfolios delivering the highest expected return for a given level of risk. It forms the upper-left edge of the cloud.";
        formula = none;
        points =
            "Portfolios below the frontier are sub-optimal."
            ∷ "Moving along the frontier trades risk for return." ∷ [];
        interpretation =
            some
              "Rational allocations sit on the frontier; the right point depends on your risk tolerance.";
      },
    )
    ∷ (
      "expectedReturn",
      record {
        title = "Expected Return";
        subtitle = none;
        what = "The portfolio's annualized mean return, estimated from historical daily returns.";
        formula = some "ret = wᵀμ,  μ = mean(daily returns) × 252";
        points = [];
        interpretation = some "Higher is better, but weigh it against the risk taken.";
      },
    )
    ∷ (
      "risk",
      record {
        title = "Risk (Volatility)";
        subtitle = none;
        what = "Annualized standard deviation of portfolio returns — how much the value swings.";
        formula = some "vol = √(wᵀ Σ w),  Σ = cov(daily returns) × 252";
        points = [];
        interpretation =
            some "Lower volatility = smoother equity curve. Diversification reduces it.";
      },
    )
    ∷ (
      "sharpe",
      record {
        title = "Sharpe Ratio";
        subtitle = none;
        what = "Risk-adjusted return: excess return per unit of volatility.";
        formula = some "Sharpe = (ret - r_f) / vol";
        points = "< 1 — sub-par" ∷ "1-2 — good" ∷ "> 2 — excellent" ∷ [];
        interpretation =
            some "Maximizing Sharpe finds the tangency portfolio — best return per unit of risk.";
      },
    )
    ∷ (
      "maxSharpe",
      record {
        title = "Max-Sharpe Portfolio";
        subtitle = some "Tangency portfolio";
        what = "The simulated portfolio with the highest Sharpe ratio — best risk-adjusted return.";
        formula = none;
        points = [];
        interpretation = some "Preferred by return-seekers who still care about risk efficiency.";
      },
    )
    ∷ (
      "minVol",
      record {
        title = "Min-Volatility Portfolio";
        subtitle = none;
        what = "The simulated portfolio with the lowest volatility — the calmest equity curve.";
        formula = none;
        points = [];
        interpretation =
            some
              "Preferred by risk-averse investors; usually gives up some return for lower drawdowns.";
      },
    )
    ∷ (
      "totalReturn",
      record {
        title = "Total Return";
        subtitle = none;
        what =
            "Cumulative growth of account equity since inception, as a percentage of starting capital.";
        formula = some "(equity_now - equity_start) / equity_start";
        points = [];
        interpretation = none;
      },
    )
    ∷ (
      "maxDrawdown",
      record {
        title = "Max Drawdown";
        subtitle = none;
        what = "The largest peak-to-trough decline in equity — the worst loss holding through.";
        formula = some "max over time of (peak - equity) / peak";
        points = [];
        interpretation = some "A key risk gauge; smaller is better.";
      },
    )
    ∷ (
      "winRate",
      record {
        title = "Win Rate";
        subtitle = none;
        what = "Share of closed trades that were profitable.";
        formula = none;
        points = [];
        interpretation =
            some "High win rate alone isn't enough — a few large losses can erase many small wins.";
      },
    )
    ∷ (
      "volatility",
      record {
        title = "Volatility";
        subtitle = none;
        what = "Annualized standard deviation of returns — the dispersion of outcomes.";
        formula = none;
        points = [];
        interpretation = some "Higher volatility = wider range of likely results.";
      },
    )
    ∷ (
      "profitFactor",
      record {
        title = "Profit Factor";
        subtitle = none;
        what = "Gross profit divided by gross loss across all trades.";
        formula = some "Σ winning P&L / |Σ losing P&L|";
        points = "> 1 is profitable" ∷ "> 1.5 is strong" ∷ "< 1 loses money" ∷ [];
        interpretation = none;
      },
    )
    ∷ (
      "equity",
      record {
        title = "Equity";
        subtitle = none;
        what = "Total account value = cash balance + mark-to-market value of all open positions.";
        formula = none;
        points = [];
        interpretation = none;
      },
    )
    ∷ (
      "cash",
      record {
        title = "Cash";
        subtitle = none;
        what = "Uninvested buying power available to open new positions.";
        formula = none;
        points = [];
        interpretation = none;
      },
    )
    ∷ (
      "totalPnl",
      record {
        title = "Total P&L";
        subtitle = none;
        what = "Realized plus unrealized profit and loss across the whole account.";
        formula = none;
        points = [];
        interpretation = none;
      },
    )
    ∷ []
