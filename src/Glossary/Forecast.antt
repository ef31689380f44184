-- ===== src/Glossary/Forecast.antt =====
-- The entries of utils/glossary.js from `predictor` to `caarBuckets`.
use algorithmic_trading_simu.Prelude.{none, some, String, List, [], ◌∷◌}
use algorithmic_trading_simu.Glossary.Shape.{Entry}

abbrev pub forecast_entries : List (String × Entry)
forecast_entries =
    (
      "predictor",
      record {
        title = "Stock Return Predictor";
        subtitle = some "Random Forest + Monte Carlo";
        what =
            "Engineers features from price/volume history (lagged returns, moving-average ratios, rolling volatility, RSI, momentum, volume z-score) and trains a Random Forest to predict the next day's return. The model is evaluated strictly out-of-sample (time-ordered split, no leakage), then traded long/short and stress-tested with Monte Carlo bootstrap resampling.";
        formula = none;
        points =
            "Daily returns are near-random: an R-squared close to 0 and ~52-55% directional accuracy is realistic and honest."
            ∷ "The edge, if any, shows up in directional accuracy and information coefficient, not raw R-squared."
            ∷ "Monte Carlo resampling gives a distribution of outcomes instead of one lucky equity curve."
            ∷ [];
        interpretation =
            some
              "A small but consistent directional edge, compounded with risk control, is what real systematic desks harvest.";
      },
    )
    ∷ (
      "directionalAcc",
      record {
        title = "Directional Accuracy";
        subtitle = none;
        what =
            "Share of test days where the model predicted the correct sign (up vs down) of the next return.";
        formula = none;
        points = [];
        interpretation =
            some
              "50% is a coin flip. Anything consistently above ~52% is a genuine (if small) edge.";
      },
    )
    ∷ (
      "infoCoeff",
      record {
        title = "Information Coefficient (IC)";
        subtitle = none;
        what =
            "Correlation between predicted and realized returns - the core metric quants use to grade a signal.";
        formula = some "corr(prediction, realized return)";
        points = [];
        interpretation =
            some "0.03-0.06 is a usable signal; 0.1+ is excellent for daily equity returns.";
      },
    )
    ∷ (
      "rSquared",
      record {
        title = "R-squared";
        subtitle = none;
        what = "Fraction of return variance the model explains out-of-sample.";
        formula = none;
        points = [];
        interpretation =
            some
              "Near 0 (even slightly negative) is normal for daily returns - they are mostly noise.";
      },
    )
    ∷ (
      "monteCarloResample",
      record {
        title = "Monte Carlo Resampling";
        subtitle = none;
        what =
            "Bootstraps the strategy's daily returns thousands of times to build a distribution of possible equity paths.";
        formula = none;
        points =
            "The shaded band spans the 5th-95th percentile of resampled equity."
            ∷ "Probability of profit = share of resampled paths ending above the starting capital."
            ∷ [];
        interpretation =
            some
              "Judges a strategy by its distribution of outcomes, not a single backtest that might be luck.";
      },
    )
    ∷ (
      "featureImportance",
      record {
        title = "Feature Importance";
        subtitle = none;
        what =
            "How much each feature reduced prediction error across the forest - which inputs the model leaned on.";
        formula = none;
        points = [];
        interpretation =
            some
              "Concentration in a few features can signal a real driver; perfectly even importance suggests noise.";
      },
    )
    ∷ (
      "sentiment",
      record {
        title = "Earnings-Call Sentiment";
        subtitle = some "Financial NLP + event study";
        what =
            "Scores an earnings-call transcript using a Loughran-McDonald-style financial sentiment model (finance-tuned positive/negative lexicons with negation flipping and intensifier weighting), then tests whether the sentiment predicts post-earnings price moves via an event study.";
        formula = none;
        points =
            "Each sentence is scored; the document score is squashed to a -1..+1 sentiment."
            ∷ "Negation (\"not strong\") flips polarity; intensifiers (\"significantly\") add weight."
            ∷ "A HuggingFace transformer is a drop-in upgrade for the lexicon scorer." ∷ [];
        interpretation =
            some "The point is turning unstructured text into a quantifiable, tradable signal.";
      },
    )
    ∷ (
      "eventStudy",
      record {
        title = "Event Study (CAAR)";
        subtitle = none;
        what =
            "Cumulative Average Abnormal Return around the earnings announcement, grouped by sentiment. Day 0 is the announcement.";
        formula = some "CAAR(t) = mean over events of cumulative abnormal return up to t";
        points =
            "Positive-sentiment calls should drift up after day 0; negative ones down."
            ∷ "The gap between the lines is the post-earnings-announcement drift (PEAD)." ∷ [];
        interpretation =
            some
              "A persistent positive-minus-negative gap is evidence the text carries tradable information.";
      },
    )
    ∷ (
      "tStat",
      record {
        title = "t-Statistic";
        subtitle = none;
        what =
            "Significance of the long-short (positive minus negative) post-earnings return spread.";
        formula = none;
        points = [];
        interpretation =
            some
              "|t| > 2 means the signal is statistically significant (not luck) at ~95% confidence.";
      },
    )
    ∷ (
      "caarBuckets",
      record {
        title = "Sentiment Buckets";
        subtitle = none;
        what =
            "Events are split into positive, neutral, and negative sentiment groups; the event study averages each group's abnormal-return path.";
        formula = none;
        points = [];
        interpretation = none;
      },
    )
    ∷ []
