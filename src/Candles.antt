-- ===== src/Candles.antt =====
-- components/charts/CandlestickChart.jsx: how the candles of a reply are normalized, cleaned and
-- aggregated, and what the header shows. Times are whole seconds; 0 stands for every time that is
-- not above 0, which `normalizeCandles` drops alike. Prices count a fixed unit and are exact. Replies
-- are parsed JSON, whose numbers are finite.
pub mod Buckets
pub mod Outliers
pub mod Fetching
use algorithmic_trading_simu.Prelude.{
  ℕ, zero, suc, ◌+◌, ◌-◌, ◌*◌, ◌/◌, ◌%◌, Bool, true, false, not, ◌&&◌, Option, none, some, String,
  str_eq, List, [], ◌∷◌, ◌++◌, map, length, take_last, select, if◌then◌else◌, ltb, leb, ◌==◌,
}
use algorithmic_trading_simu.Prelude.Int.{ℤ, pos, negsuc, pos_part, ltb_ℤ, leb_ℤ, ◌+ℤ◌, ◌-ℤ◌}
use algorithmic_trading_simu.Prelude.Sorting.{sort}
use algorithmic_trading_simu.Js.{
  Number, finite, infinity, neg_infinity, nan, Value, Items, array, nil, cons, number, get, opt_get,
  to_number, is_finite, is_positive,
}

pub record Candle : Type 0 where
  pub time : ℕ
  pub first : ℤ
  pub high : ℤ
  pub low : ℤ
  pub close : ℤ

-- What the page reads with: `Number(v)` of texts and objects, and `new Date(v).getTime()`.
pub record Reader : Type 0 where
  pub to_num : Value → Number
  pub date_ms : Value → Number

abbrev pub seconds : ℕ → ℕ
seconds ms = ms / 1000

unfoldable pub to_epoch_sec : Reader → Value → ℕ
to_epoch_sec k (number (finite (pos n))) = if ltb 1000000000000 n then seconds n else n
to_epoch_sec k (number _) = 0
to_epoch_sec k v = elim (k.date_ms v) [ finite (pos ms) ↦ seconds ms | _ ↦ 0 ]

-- Prices that are all finite.
abbrev pub candle_of : ℕ → Number → Number → Number → Number → Option Candle
candle_of t (finite o) (finite h) (finite l) (finite c) =
    if ltb 0 t then some record { time = t; first = o; high = h; low = l; close = c } else none
candle_of t _ _ _ _ = none

-- Reading one element; `none` where `c.time` throws, and a dropped element is `some none`.
unfoldable pub read_candle : Reader → Value → Option (Option Candle)
unfolding to_epoch_sec
read_candle k v = elim (get "time" v) [
  | none ↦ none
  | some t ↦ some (
      candle_of (to_epoch_sec k t) (to_number k.to_num (opt_get "open" v))
        (to_number k.to_num (opt_get "high" v)) (to_number k.to_num (opt_get "low" v))
        (to_number k.to_num (opt_get "close" v)))
]

unfoldable pub read_candles : Reader → Items → Option (List Candle)
unfolding read_candle
read_candles k nil = some []
read_candles k (cons v vs) =
    let rest = read_candles k vs in
    elim (read_candle k v) [
      | none ↦ none
      | some c ↦ elim rest [ none ↦ none | some cs ↦ some (elim c [ none ↦ cs | some x ↦ x ∷ cs ]) ]
    ]

abbrev pub by_time : Candle → Candle → Bool
by_time a b = leb a.time b.time

-- `normalizeCandles`, `none` where it throws.
unfoldable pub normalize_candles : Reader → Value → Option (List Candle)
unfolding read_candles
normalize_candles k (array vs) = elim (read_candles k vs) [
  | none ↦ none
  | some cs ↦ some (sort by_time cs)
]
normalize_candles k _ = some []

abbrev pub by_size : ℤ → ℤ → Bool
by_size a b = leb_ℤ a b

abbrev pub nth : ℕ → List ℤ → ℤ
nth n [] = pos 0
nth zero (x ∷ xs) = x
nth (suc n) (x ∷ xs) = nth n xs

-- Twice the median of some closes.
unfoldable pub double_median : List ℤ → ℤ
double_median closes =
    let mid = length closes / 2 in
    if length closes % 2 == 0
    then nth (mid - 1) closes +ℤ nth mid closes
    else nth mid closes +ℤ nth mid closes

-- The test of a candle against twice the median, where that is above 0: 0.35 and 2.8 times the
-- median, without the fractions.
unfoldable pub is_plausible : ℤ → Candle → Bool
is_plausible m c =
    ltb_ℤ (pos 0) c.first
    && ltb_ℤ (pos 0) c.high
    && ltb_ℤ (pos 0) c.low
    && ltb_ℤ (pos 0) c.close
    && leb (35 * pos_part m) (200 * pos_part c.close)
    && leb (20 * pos_part c.close) (28 * pos_part m)

unfoldable pub remove_outlier_candles : List Candle → List Candle
unfolding double_median is_plausible
remove_outlier_candles candles =
    if ltb (length candles) 10
    then candles
    else (let m = double_median (sort by_size (map (λ c. c.close) candles)) in
        if ltb_ℤ (pos 0) m then select (is_plausible m) candles else candles)

abbrev pub bucket_sec : String → ℕ
bucket_sec timeframe =
    if str_eq timeframe "5m" then 300 else if str_eq timeframe "15m" then 900 else 60

abbrev pub max_ℤ : ℤ → ℤ → ℤ
max_ℤ a b = if leb_ℤ b a then a else b

abbrev pub min_ℤ : ℤ → ℤ → ℤ
min_ℤ a b = if leb_ℤ a b then a else b

-- A bucket after another candle.
abbrev pub extend : Candle → Candle → Candle
extend b c = record b { high = max_ℤ b.high c.high; low = min_ℤ b.low c.low; close = c.close }

-- The map of buckets, in the order of insertion: each holds its own time.
unfoldable pub into_bucket : ℕ → Candle → List Candle → List Candle
into_bucket t c [] = record c { time = t } ∷ []
into_bucket t c (b ∷ bs) = if b.time == t then extend b c ∷ bs else b ∷ into_bucket t c bs

abbrev pub start_of : ℕ → Candle → ℕ
start_of sec c = c.time / sec * sec

unfoldable pub fill_buckets : ℕ → List Candle → List Candle → List Candle
unfolding into_bucket
fill_buckets sec [] buckets = buckets
fill_buckets sec (c ∷ cs) buckets = fill_buckets sec cs (into_bucket (start_of sec c) c buckets)

unfoldable pub aggregate_candles : List Candle → String → List Candle
unfolding fill_buckets
aggregate_candles candles timeframe =
    let sec = bucket_sec timeframe in
    if sec == 60
    then take_last 180 candles
    else take_last 180 (sort by_time (fill_buckets sec candles []))

-- The numbers of the header: the last close and its change against the one before.
abbrev pub last_two : List Candle → ℤ × ℤ
last_two [] = (pos 0, pos 0)
last_two (c ∷ []) = (c.close, c.close)
last_two (b ∷ c ∷ []) = (c.close, b.close)
last_two (a ∷ b ∷ c ∷ cs) = last_two (b ∷ c ∷ cs)

unfoldable pub last_price : List Candle → ℤ
last_price candles = (last_two candles).0

unfoldable pub price_change : List Candle → ℤ
price_change candles = let (last, prev) = last_two candles in last -ℤ prev
