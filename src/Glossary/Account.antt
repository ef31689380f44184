-- ===== src/Glossary/Account.antt =====
-- The entries of utils/glossary.js from `unrealizedPnl` to `probItm`.
use algorithmic_trading_simu.Prelude.{none, some, String, List, [], ◌∷◌}
use algorithmic_trading_simu.Glossary.Shape.{Entry}

abbrev pub account_entries : List (String × Entry)
account_entries =
    (
      "unrealizedPnl",
      record {
        title = "Unrealized P&L";
        subtitle = none;
        what = "Paper profit/loss on open positions at current prices — not yet locked in.";
        formula = some "(current_price - avg_price) × quantity";
        points = [];
        interpretation =
            some "Fluctuates with price; becomes realized only when you close the position.";
      },
    )
    ∷ (
      "realizedPnl",
      record {
        title = "Realized P&L";
        subtitle = none;
        what = "Profit/loss already locked in from closed trades (FIFO lot matching).";
        formula = none;
        points = [];
        interpretation = none;
      },
    )
    ∷ (
      "avgPrice",
      record {
        title = "Average Price";
        subtitle = none;
        what = "Your cost basis — the average price paid across the lots in the position.";
        formula = none;
        points = [];
        interpretation = none;
      },
    )
    ∷ (
      "marketValue",
      record {
        title = "Market Value";
        subtitle = none;
        what = "Current worth of the position = quantity × current price.";
        formula = none;
        points = [];
        interpretation = none;
      },
    )
    ∷ (
      "totalCost",
      record {
        title = "Total Cost";
        subtitle = none;
        what = "What you paid for the position = quantity × average price.";
        formula = none;
        points = [];
        interpretation = none;
      },
    )
    ∷ (
      "returnPct",
      record {
        title = "Return %";
        subtitle = none;
        what = "Unrealized gain/loss as a percentage of cost basis.";
        formula = some "unrealized P&L / invested cost × 100";
        points = [];
        interpretation = none;
      },
    )
    ∷ (
      "trend",
      record {
        title = "Trend";
        subtitle = none;
        what = "Directional strength from the gap between fast and slow EMAs.";
        formula = some "(EMA_fast - EMA_slow) / EMA_slow";
        points = [];
        interpretation = some "Positive = uptrend, negative = downtrend, near zero = range-bound.";
      },
    )
    ∷ (
      "momentum",
      record {
        title = "Momentum";
        subtitle = none;
        what = "Centered RSI(14) — the speed and conviction of recent price moves.";
        formula = some "(RSI - 50) / 50";
        points = [];
        interpretation = some "Above 0 favors buyers; below 0 favors sellers.";
      },
    )
    ∷ (
      "optionPricer",
      record {
        title = "Monte Carlo Option Pricer";
        subtitle = some "GBM simulation + Black-Scholes";
        what =
            "Prices a European option by simulating thousands of terminal prices for the underlying under Geometric Brownian Motion (risk-neutral), then averaging and discounting the payoff. A closed-form Black-Scholes price is shown as the analytical benchmark.";
        formula = some "S_T = S0·exp((r - ½σ²)T + σ√T·Z),  price = e^(-rT)·E[payoff]";
        points =
            "Each faint line is one simulated price path of the underlying."
            ∷ "The histogram is the distribution of simulated prices at expiry (S_T)."
            ∷ "The MC price should land within its 95% confidence interval of Black-Scholes." ∷ [];
        interpretation =
            some
              "Monte Carlo generalizes to exotic/path-dependent payoffs where no closed form exists.";
      },
    )
    ∷ (
      "mcPrice",
      record {
        title = "Monte Carlo Price";
        subtitle = none;
        what =
            "Average discounted option payoff across all simulated paths, with a 95% confidence interval.";
        formula = some "e^(-rT) · mean(payoff),  payoff = max(S_T - K, 0) for a call";
        points = [];
        interpretation =
            some "A narrower CI means more precision. It converges to Black-Scholes as paths grow.";
      },
    )
    ∷ (
      "blackScholes",
      record {
        title = "Black-Scholes Price";
        subtitle = none;
        what =
            "The closed-form analytical fair value of a European option — the theoretical benchmark.";
        formula = none;
        points = [];
        interpretation =
            some "If the MC estimate brackets this value, the simulation is calibrated correctly.";
      },
    )
    ∷ (
      "delta",
      record {
        title = "Delta";
        subtitle = none;
        what = "Sensitivity of option price to a $1 move in the underlying.";
        formula = some "∂V/∂S";
        points = [];
        interpretation =
            some "Call delta 0 to 1, put delta -1 to 0. Around 0.5 means at-the-money.";
      },
    )
    ∷ (
      "gamma",
      record {
        title = "Gamma";
        subtitle = none;
        what = "Rate of change of delta per $1 move — the curvature of the position.";
        formula = some "∂²V/∂S²";
        points = [];
        interpretation =
            some "Highest at-the-money near expiry; high gamma means delta shifts fast.";
      },
    )
    ∷ (
      "vega",
      record {
        title = "Vega";
        subtitle = none;
        what = "Sensitivity of option price to a 1% change in implied volatility.";
        formula = some "∂V/∂σ";
        points = [];
        interpretation = some "Long options are long vega — they gain value when volatility rises.";
      },
    )
    ∷ (
      "theta",
      record {
        title = "Theta";
        subtitle = none;
        what = "Time decay — how much value the option loses per day, all else equal.";
        formula = some "∂V/∂t (per day)";
        points = [];
        interpretation = some "Usually negative for long options; the cost of holding optionality.";
      },
    )
    ∷ (
      "rho",
      record {
        title = "Rho";
        subtitle = none;
        what = "Sensitivity of option price to a 1% change in the risk-free interest rate.";
        formula = some "∂V/∂r";
        points = [];
        interpretation = none;
      },
    )
    ∷ (
      "probItm",
      record {
        title = "Probability ITM";
        subtitle = none;
        what = "Share of simulated paths where the option finished in-the-money (positive payoff).";
        formula = none;
        points = [];
        interpretation = some "A simulation-based estimate of expiring with intrinsic value.";
      },
    )
    ∷ []
