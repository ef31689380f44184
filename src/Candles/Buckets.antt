-- ===== src/Candles/Buckets.antt =====
-- The buckets against the candles that fall into them.
use algorithmic_trading_simu.Prelude.{
  ℕ, zero, suc, ◌-◌, ◌≤◌, ◌≡◌, refl, true, false, Option, none, some, String, List, [], ◌∷◌, length,
  drop, take_last, find, select, if◌then◌else◌, ◌==◌, arith, Bool-cases, ◌∙◌, inl, inr,
}
use algorithmic_trading_simu.Prelude.Int.{ℤ}
use algorithmic_trading_simu.Prelude.Sorting.{sort, sorted, sorted-sort}
use algorithmic_trading_simu.Candles.{
  Candle, extend, max_ℤ, min_ℤ, by_time, bucket_sec, start_of, into_bucket, fill_buckets,
  aggregate_candles,
}

-- The reference: the highest high, the lowest low and the last close of some candles after others.
abbrev pub highest : ℤ → List Candle → ℤ
highest h [] = h
highest h (c ∷ cs) = highest (max_ℤ h c.high) cs

abbrev pub lowest : ℤ → List Candle → ℤ
lowest l [] = l
lowest l (c ∷ cs) = lowest (min_ℤ l c.low) cs

abbrev pub last_close : ℤ → List Candle → ℤ
last_close x [] = x
last_close x (c ∷ cs) = last_close c.close cs

abbrev pub summary : ℕ → List Candle → Option Candle
summary t [] = none
summary t (c ∷ cs) = some record {
  time = t;
  first = c.first;
  high = highest c.high cs;
  low = lowest c.low cs;
  close = last_close c.close cs;
}

-- The bucket of a time.
abbrev pub bucket_at : ℕ → List Candle → Option Candle
bucket_at t = find (λ b. b.time == t)

-- The candles of a bucket, in order.
abbrev pub candles_at : ℕ → ℕ → List Candle → List Candle
candles_at sec t = select (λ c. start_of sec c == t)

abbrev absorb : ℕ → Option Candle → List Candle → Option Candle
absorb t none cs = summary t cs
absorb t (some b) cs =
    some record b { high = highest b.high cs; low = lowest b.low cs; close = last_close b.close cs }

abbrev joined : Candle → Option Candle → Candle
joined c none = c
joined c (some b) = extend b c

bucket_at-into_bucket :
    (t u : ℕ) (c : Candle) (bs : List Candle)
    → bucket_at t (into_bucket u c bs)
      ≡ (if u == t then some (joined (record c { time = t }) (bucket_at t bs)) else bucket_at t bs)
unfolding into_bucket
bucket_at-into_bucket t u c [] = ground arith
bucket_at-into_bucket t u c (b ∷ bs) = ground (arith, bucket_at-into_bucket t u c bs)

absorb-joined :
    (t : ℕ) (c : Candle) (o : Option Candle) (cs : List Candle)
    → absorb t (some (joined (record c { time = t }) o)) cs ≡ absorb t o (c ∷ cs)
absorb-joined t c none cs = refl
absorb-joined t c (some b) cs = refl

absorb-nil : (t : ℕ) (o : Option Candle) → o ≡ absorb t o []
absorb-nil t none = refl
absorb-nil t (some b) = refl

bucket_at-absorb :
    (sec t : ℕ) (cs bs : List Candle)
    → bucket_at t (fill_buckets sec cs bs) ≡ absorb t (bucket_at t bs) (candles_at sec t cs)
unfolding fill_buckets
bucket_at-absorb sec t [] bs = absorb-nil t (bucket_at t bs)
bucket_at-absorb sec t (c ∷ cs) bs = elim (Bool-cases (start_of sec c == t)) [
  | inl e ↦ rw (e) (
      bucket_at-absorb sec t cs (into_bucket (start_of sec c) c bs)
      ∙ rw (bucket_at-into_bucket t (start_of sec c) c bs, e)
          (absorb-joined t c (bucket_at t bs) (candles_at sec t cs)))
  | inr e ↦ rw (e) (
      bucket_at-absorb sec t cs (into_bucket (start_of sec c) c bs)
      ∙ rw (bucket_at-into_bucket t (start_of sec c) c bs, e) refl)
]

-- The bucket that `aggregateCandles` fills for a time is that of the candles of the bucket, in their
-- order: it opens with the first and closes with the last, its high is the highest of theirs and
-- its low the lowest; and there is none if there are no such candles.
pub fill_buckets-summary :
    (sec t : ℕ) (cs : List Candle)
    → bucket_at t (fill_buckets sec cs []) ≡ summary t (candles_at sec t cs)
fill_buckets-summary sec t cs = bucket_at-absorb sec t cs []

sorted-drop :
    (n : ℕ) (cs : List Candle) → sorted by_time cs ≡ true → sorted by_time (drop n cs) ≡ true
sorted-drop zero cs s = s
sorted-drop (suc n) [] s = refl
sorted-drop (suc n) (c ∷ []) s = sorted-drop n [] refl
sorted-drop (suc n) (b ∷ c ∷ cs) s = sorted-drop n (c ∷ cs) (ground arith)

length-drop : (n : ℕ) (cs : List Candle) → length (drop n cs) ≡ length cs - n
length-drop zero cs = omega arith
length-drop (suc n) [] = omega arith
length-drop (suc n) (c ∷ cs) = omega (arith, length-drop n cs)

take_last_lem :
    (n : ℕ) (cs : List Candle)
    → sorted by_time cs ≡ true
    → (sorted by_time (take_last n cs) ≡ true) × (length (take_last n cs) ≤ n)
take_last_lem n cs s =
    (sorted-drop (length cs - n) cs s, omega (arith, length-drop (length cs - n) cs))

by_time-total : (a b : Candle) → by_time a b ≡ false → by_time b a ≡ true
by_time-total a b h = ground arith

-- The chart gets at most 180 candles at every timeframe, in the order of their times, if the base
-- series is in that order.
aggregate_candles-bounded :
    (cs : List Candle) (timeframe : String)
    → sorted by_time cs ≡ true
    → (sorted by_time (aggregate_candles cs timeframe) ≡ true)
      × (length (aggregate_candles cs timeframe) ≤ 180)
unfolding aggregate_candles
aggregate_candles-bounded cs timeframe s = elim (Bool-cases (bucket_sec timeframe == 60)) [
  | inl e ↦ rw (e) (take_last_lem 180 cs s)
  | inr e ↦
      let bs = fill_buckets (bucket_sec timeframe) cs [] in
      rw (e) (take_last_lem 180 (sort by_time bs) (sorted-sort by_time by_time-total bs))
]
