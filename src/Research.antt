-- ===== src/Research.antt =====
-- How the research pages ask the server. A page holds the requests that it sent, in order, and what it
-- shows. There are two ways to take an answer: pages/MarketRegime.jsx and pages/OptionPricer.jsx look
-- whether their effect is still the running one (Research.Guarded), while pages/VolSurface.jsx,
-- VolForecast.jsx, Backtester.jsx and Predictor.jsx wait for a pause in the input and take every answer
-- (Research.Debounced).
pub mod Lab
pub mod Markers
pub mod Guarded
pub mod Debounced
pub mod Pricing
pub mod Sentiment
use algorithmic_trading_simu.Prelude.{
  ◌*◌, ℕ, ◌≡◌, refl, Bool, true, false, Option, none, some, String, List, [], ◌∷◌, ◌++◌,
}
use algorithmic_trading_simu.Prelude.Int.{pos}
use algorithmic_trading_simu.Js.{
  number, finite, Value, Fields, null, string, object, end, field, insert,
}
use algorithmic_trading_simu.Auth.{Reply, replied, failed}

-- A whole number of a form, in hundredths.
abbrev pub whole : ℕ → Value
whole n = number (finite (pos (100 * n)))

-- The requests, what `data` holds, and `loading`. The request of number n is the n-th of `sent`.
pub record Fetch {ℓ} (A : Type ℓ) : Type ℓ where
  pub sent : List A
  pub result : Value
  pub loading : Bool

-- `{ status: "error" }`.
abbrev pub status_error : Value
status_error = object (field "status" (string "error") end)

-- What `setData` is called with.
abbrev pub data_of : Value → Reply → Value
data_of fallback (replied d) = d
data_of fallback (failed err) = fallback

-- `setForm((f) => ({ ...f, [k]: v }))`.
unfoldable pub set : String → Value → Fields → Fields
unfolding insert
set k v form = insert k v form

module _ {ℓ} {A : Type ℓ} where
  abbrev pub mounted : Fetch A
  mounted = record { sent = []; result = null; loading = true }

  -- `setLoading(true)` and the call.
  unfoldable pub ask : A → Fetch A → Fetch A
  ask a f = record f { sent = f.sent ++ a ∷ []; loading = true }

  -- `setData(…)` and `setLoading(false)`.
  unfoldable pub settle : Value → Fetch A → Fetch A
  settle v f = record f { result = v; loading = false }

  abbrev pub latest : List A → Option A
  latest [] = none
  latest (a ∷ []) = some a
  latest (a ∷ b ∷ rest) = latest (b ∷ rest)

  pub latest-append : (xs : List A) (a : A) → latest (xs ++ a ∷ []) ≡ some a
  latest-append [] a = refl
  latest-append (x ∷ []) a = refl
  latest-append (x ∷ y ∷ xs) a = latest-append (y ∷ xs) a
