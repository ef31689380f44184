-- ===== src/Research/Debounced.antt =====
-- A page that asks once its form has not changed for a while: each change clears the timer and sets
-- another, and the request carries the form of that change. Times are whole milliseconds.
pub mod Bursts
pub mod Overtaking
pub mod Surveys
use algorithmic_trading_simu.Prelude.{
  ℕ, ◌+◌, Bool, true, false, not, Option, none, some, String, List, [], ◌∷◌, if◌then◌else◌, leb,
}
use algorithmic_trading_simu.Js.{Value, Fields}
use algorithmic_trading_simu.Auth.{Reply}
use algorithmic_trading_simu.Research.{Fetch, status_error, data_of, ask, settle, set, mounted}

-- What the pages differ in: their `DEFAULTS`, the milliseconds that they wait, and what they ask for.
pub record Settings {ℓ} (A : Type ℓ) : Type ℓ where
  pub defaults : Fields
  pub wait : ℕ
  pub params : Fields → A

-- `due` is the time at which the timer of the page fires, if it is set.
pub record Page {ℓ} (A : Type ℓ) : Type ℓ where
  pub form : Fields
  pub due : Option ℕ
  pub fetch : Fetch A

-- A change of a field, a moment at which the browser looks at the timer, and an answer, with the
-- number of its request.
pub data Event : Type 0 where
  edits : ℕ → String → Value → Event
  wakes : ℕ → Event
  answers : ℕ → Reply → Event

abbrev pub is_due : Option ℕ → ℕ → Bool
is_due none t = false
is_due (some d) t = leb d t

module _ {ℓ} {A : Type ℓ} (s : Settings A) where
  -- The effect after a render with another form.
  unfoldable pub schedule : ℕ → Page A → Page A
  schedule t p = record p { due = some (t + s.wait) }

  unfoldable pub mount : ℕ → Page A
  unfolding schedule
  mount t = schedule t (record { form = s.defaults; due = none; fetch = mounted })

  unfoldable pub edit : ℕ → String → Value → Page A → Page A
  unfolding schedule set
  edit t k v p = schedule t (record p { form = set k v p.form })

  -- The callback of the timer, up to its `await`.
  unfoldable pub wake : ℕ → Page A → Page A
  unfolding ask
  wake t p =
      if is_due p.due t then record p { due = none; fetch = ask (s.params p.form) p.fetch } else p

  -- The rest of the callback: it does not look which request was answered.
  unfoldable pub answer : ℕ → Reply → Page A → Page A
  unfolding settle
  answer n r p = record p { fetch = settle (data_of status_error r) p.fetch }

  unfoldable pub step : Page A → Event → Page A
  unfolding edit wake answer
  step p (edits t k v) = edit t k v p
  step p (wakes t) = wake t p
  step p (answers n r) = answer n r p

  abbrev pub run : Page A → List Event → Page A
  run p [] = p
  run p (e ∷ es) = run (step p e) es
