-- ===== src/Tests/Laboratory.antt =====
-- The pages of the laboratory at concrete replies.
use algorithmic_trading_simu.Prelude.{
  ℕ, zero, suc, ◌≤◌, ◌<◌, ◌≡◌, ◌⊎◌, true, false, Option, none, some, String, List, [], ◌∷◌, length,
  map_option, if◌then◌else◌,
}
use algorithmic_trading_simu.Prelude.Int.{pos}
use algorithmic_trading_simu.Js.{
  Value, Number, finite, nan, undefined, string, number, array, object, nil, cons, Fields, end,
  field, lookup,
}
use algorithmic_trading_simu.Auth.{Reply, replied, failed}
use algorithmic_trading_simu.Research.{data_of, latest, status_error}
use algorithmic_trading_simu.Regime.Viewing.{
  mount, failure, points, view, chart_of, spinner, chooses_symbol, arrives,
}
use algorithmic_trading_simu.Regime.Viewing
use algorithmic_trading_simu.Regime.Viewing.{run-shown}
use algorithmic_trading_simu.Research.Pricing
use algorithmic_trading_simu.Research.Pricing.Simulations.{run-one_run, successes, answered}
use algorithmic_trading_simu.Research.Lab.{Module, options, vol, key}
use algorithmic_trading_simu.Research.Lab
use algorithmic_trading_simu.Research.Lab.Cards.{
  run-figures, any_broken, includes, figure, value_of,
}
use algorithmic_trading_simu.Research.Markers.{Signal, times_of, nearest, mark, closer}
use algorithmic_trading_simu.Research.Markers.Nearest.{mark-nearest, edit_at, distance_at}

abbrev no_text : Value → Number
no_text v = nan

abbrev same : Number → Number
same n = n

-- A server that answers its first two requests in time, and fails later.
abbrev server : ℕ → Reply
server zero = failed (string "none")
server (suc zero) = replied (
    object
      (field "status" (string "success") (field "points" (array (cons (string "old") nil)) end)))
server (suc (suc n)) = replied (
    object
      (field "status" (string "success") (field "points" (array (cons (string "new") nil)) end)))

abbrev choices : List Viewing.Event
choices = chooses_symbol "MSFT" ∷ Viewing.arrives 2 ∷ Viewing.arrives 1 ∷ []

run-shown_example :
    let s = Viewing.run server mount choices in
    let res = data_of failure (server (length s.fetch.sent)) in
    (latest s.fetch.sent ≡ some (s.symbol, s.interval))
    × ((view s ≡ spinner) ⊎ (view s ≡ chart_of (points res)))
run-shown_example = run-shown server choices

abbrev clicked : List Pricing.Event
clicked =
    Pricing.clicks ∷ Pricing.arrives 1 ∷ Pricing.clicks ∷ Pricing.clicks ∷ Pricing.arrives 2 ∷ []

run-one_run_example :
    let p = Pricing.run no_text same server (Pricing.start no_text same) clicked in
    let n = length p.fetch.sent in
    (p.waiting ≡ (if p.fetch.loading then n ∷ [] else []))
    × (p.sim_id ≡ successes server (answered p.fetch))
    × ((p.fetch.loading ≡ true) ⊎ (p.fetch.result ≡ data_of status_error (server n)))
run-one_run_example = run-one_run no_text same server clicked

abbrev digits : ℕ → Number → String
digits n a = "1.00"

-- Every module but the first fails.
abbrev lab : Module → Reply
lab options =
    replied (object (field "mc" (object (field "price" (number (finite (pos 1000))) end)) end))
lab _ = failed (string "down")

run-figures_example :
    map_option (lookup (key options)) (Lab.run no_text digits lab (some end) (vol ∷ options ∷ []))
    ≡ (if any_broken no_text digits lab (vol ∷ options ∷ [])
        then none
        else some (
            if includes options (vol ∷ options ∷ [])
            then value_of (figure no_text digits lab options)
            else undefined))
run-figures_example = run-figures no_text digits lab options (vol ∷ options ∷ [])

-- A date is the number of its milliseconds.
abbrev time_of : Value → Option ℕ
time_of (number (finite (pos n))) = some n
time_of _ = none

abbrev day : ℕ → Fields
day n = field "date" (number (finite (pos n))) end

abbrev sale : Signal
sale = record { date = number (finite (pos 25)); type = "sell"; price = number (finite (pos 7)) }

mark-nearest_example :
    let times = times_of time_of (day 10 ∷ day 20 ∷ day 30 ∷ []) in
    let k = nearest (some 25) times in
    (mark time_of times sale (day 10 ∷ day 20 ∷ day 30 ∷ [])
      ≡ some (edit_at k "sell" (number (finite (pos 7))) (day 10 ∷ day 20 ∷ day 30 ∷ [])))
    × (k < 3)
    × ((j : ℕ) → closer (distance_at (some 25) j times) (distance_at (some 25) k times) ≡ false)
    × ((j : ℕ)
        → (k ≤ j) ⊎ (closer (distance_at (some 25) k times) (distance_at (some 25) j times) ≡ true))
mark-nearest_example = mark-nearest time_of sale (day 10) (day 20 ∷ day 30 ∷ [])
