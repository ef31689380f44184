-- ===== src/Candles/Fetching.antt =====
-- The effect that polls the candles of a symbol. Each change of the symbol ends the running effect and
-- starts another; an answer belongs to the effect that asked for it.
use algorithmic_trading_simu.Prelude.{
  ℕ, suc, ◌≡◌, refl, Bool, true, false, ◌&&◌, none, some, List, [], ◌∷◌, if◌then◌else◌, leb, ◌==◌,
  arith,
}
use algorithmic_trading_simu.Js.{opt_get}
use algorithmic_trading_simu.Auth.{Reply, replied, failed}
use algorithmic_trading_simu.Candles.{Candle, Reader, normalize_candles, remove_outlier_candles}

pub record Chart : Type 0 where
  pub effect : ℕ
  pub base_candles : List Candle
  pub loading : Bool

-- What `fetchCandles` sets the base series to.
unfoldable pub fetched : Reader → Reply → List Candle
fetched k (failed err) = []
fetched k (replied d) = elim (normalize_candles k (opt_get "candles" d)) [
  | none ↦ []
  | some cs ↦ remove_outlier_candles cs
]

-- `fetchCandles`, up to its `await`: at the start of an effect and every 3 seconds.
unfoldable pub fetch_candles : Chart → Chart
fetch_candles h = record h { loading = true }

unfoldable pub change_symbol : Chart → Chart
unfolding fetch_candles
change_symbol h = fetch_candles (record h { effect = suc h.effect })

-- The rest of `fetchCandles`: `mounted` is true in the running effect alone.
unfoldable pub answer : Reader → ℕ → Reply → Chart → Chart
unfolding fetched
answer k asker r h =
    if asker == h.effect then record h { base_candles = fetched k r; loading = false } else h

abbrev pub answer_all : Reader → List (ℕ × Reply) → Chart → Chart
answer_all k [] h = h
answer_all k ((asker, r) ∷ rest) h = answer_all k rest (answer k asker r h)

-- The answers to effects up to that number.
abbrev pub all_up_to : ℕ → List (ℕ × Reply) → Bool
all_up_to n [] = true
all_up_to n ((asker, r) ∷ rest) = leb asker n && all_up_to n rest

answer_all-ignored :
    (k : Reader) (n : ℕ) (late : List (ℕ × Reply)) (h : Chart)
    → h.effect ≡ suc n
    → all_up_to n late ≡ true
    → answer_all k late h ≡ h
unfolding answer
answer_all-ignored k n [] h e a = refl
answer_all-ignored k n ((asker, r) ∷ rest) h e a = ground (arith, answer_all-ignored k n rest h)

-- After a change of the symbol no late answer for an earlier symbol reaches the chart, which goes on
-- showing the candles that it had, and says that it is loading.
answer_all-late :
    (k : Reader) (late : List (ℕ × Reply)) (h : Chart)
    → all_up_to h.effect late ≡ true
    → ((answer_all k late (change_symbol h)).base_candles ≡ h.base_candles)
      × ((answer_all k late (change_symbol h)).loading ≡ true)
unfolding change_symbol fetch_candles
answer_all-late k late h a = ground (
  arith,
  answer_all-ignored k h.effect late (record h { effect = suc h.effect; loading = true }) refl a,
)
