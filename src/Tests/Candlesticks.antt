-- ===== src/Tests/Candlesticks.antt =====
-- The candles of the chart at concrete series and replies.
use algorithmic_trading_simu.Prelude.{ℕ, ◌+◌, false, ◌≡◌, refl, List, [], ◌∷◌}
use algorithmic_trading_simu.Prelude.Int.{pos}
use algorithmic_trading_simu.Js.{nan}
use algorithmic_trading_simu.Candles.{Candle, Reader, fill_buckets}
use algorithmic_trading_simu.Candles.Buckets.{bucket_at, candles_at, summary, fill_buckets-summary}
use algorithmic_trading_simu.Candles.Fetching.{Chart}

abbrev candle : ℕ → ℕ → Candle
candle t p = record {
  time = t;
  first = pos p;
  high = pos (p + 3);
  low = pos p;
  close = pos (p + 1);
}

abbrev series : List Candle
series = candle 600 100 ∷ candle 660 120 ∷ candle 720 90 ∷ candle 900 110 ∷ []

filled : bucket_at 600 (fill_buckets 300 series []) ≡ summary 600 (candles_at 300 600 series)
unfolding fill_buckets
filled = refl

fill_buckets-summary_example :
    bucket_at 600 (fill_buckets 300 series []) ≡ summary 600 (candles_at 300 600 series)
fill_buckets-summary_example = fill_buckets-summary 300 600 series

-- Eleven candles with one that is far off.
abbrev spiked : List Candle
spiked =
    candle 60 100
    ∷ candle 120 101
    ∷ candle 180 99
    ∷ candle 240 100
    ∷ candle 300 9000
    ∷ candle 360 102
    ∷ candle 420 100
    ∷ candle 480 101
    ∷ candle 540 98
    ∷ candle 600 100
    ∷ candle 660 99
    ∷ []

abbrev reader : Reader
reader = record { to_num = λ v. nan; date_ms = λ v. nan }

abbrev chart : Chart
chart = record { effect = 4; base_candles = series; loading = false }
