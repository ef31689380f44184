-- ===== src/Regime/Viewing.antt =====
-- pages/MarketRegime.jsx: the symbol, the interval, and the answer that is shown for them.
use algorithmic_trading_simu.Prelude.{
  ℕ, ◌≡◌, ◌⊎◌, refl, ap, ◌∙◌, some, String, str_eq, List, [], ◌∷◌, length, if◌then◌else◌, arith,
  Bool-cases, inl, inr,
}
use algorithmic_trading_simu.Js.{Value, string, array, object, nil, end, field, or_else, opt_get}
use algorithmic_trading_simu.Auth.{Reply}
use algorithmic_trading_simu.Research.{Fetch, data_of, mounted, ask, settle, latest, latest-append}
use algorithmic_trading_simu.Research.Guarded.{answer, Shown, ask-Shown, answer-Shown}

-- A request has the symbol and the interval.
pub record Screen : Type 0 where
  pub symbol : String
  pub interval : String
  pub fetch : Fetch (String × String)

-- `{ status: "error", points: [], summary: {} }`.
abbrev pub failure : Value
failure = object (
    field "status" (string "error") (field "points" (array nil) (field "summary" (object end) end)))

unfoldable pub mount : Screen
unfolding ask
mount = record { symbol = "AAPL"; interval = "1d"; fetch = ask ("AAPL", "1d") mounted }

-- A text that is set to itself starts no effect.
unfoldable pub set_symbol : String → Screen → Screen
set_symbol t s =
    if str_eq t s.symbol then s else record s { symbol = t; fetch = ask (t, s.interval) s.fetch }

unfoldable pub set_interval : String → Screen → Screen
set_interval t s =
    if str_eq t s.interval then s else record s { interval = t; fetch = ask (s.symbol, t) s.fetch }

-- What the chart's card holds.
pub data View : Type 0 where
  spinner no_points : View
  chart : Value → View

unfoldable pub points : Value → Value
points res = or_else (opt_get "points" res) (array nil)

unfoldable pub summary : Value → Value
summary res = or_else (opt_get "summary" res) (object end)

unfoldable pub current : Value → Value
unfolding summary
current res = or_else (opt_get "current_regime" (summary res)) (string "—")

abbrev pub chart_of : Value → View
chart_of (array nil) = no_points
chart_of v = chart v

unfoldable pub view : Screen → View
unfolding points
view s = if s.fetch.loading then spinner else chart_of (points s.fetch.result)

-- A choice of the user, or the arrival of the server's answer to the request of that number, the
-- first being 1.
pub data Event : Type 0 where
  chooses_symbol chooses_interval : String → Event
  arrives : ℕ → Event

unfoldable pub step : (ℕ → Reply) → Screen → Event → Screen
step server s (chooses_symbol t) = set_symbol t s
step server s (chooses_interval t) = set_interval t s
step server s (arrives n) = record s { fetch = answer failure n (server n) s.fetch }

abbrev pub run : (ℕ → Reply) → Screen → List Event → Screen
run server s [] = s
run server s (e ∷ es) = run server (step server s e) es

record Inv (server : ℕ → Reply) (s : Screen) : Type 0 where
  asked : latest s.fetch.sent ≡ some (s.symbol, s.interval)
  shown : Shown failure server s.fetch

asks-Inv :
    (server : ℕ → Reply) (symbol interval : String) (f : Fetch (String × String))
    → Inv server (record { symbol = symbol; interval = interval; fetch = ask (symbol, interval) f })
unfolding ask
asks-Inv server symbol interval f = record {
  asked = latest-append f.sent (symbol, interval);
  shown = ask-Shown failure server (symbol, interval) f;
}

set_symbol-Inv :
    (server : ℕ → Reply) (t : String) (s : Screen) → Inv server s → Inv server (set_symbol t s)
unfolding set_symbol
set_symbol-Inv server t s v = elim (Bool-cases (str_eq t s.symbol)) [
  | inl e ↦ rw (e) (v)
  | inr e ↦ rw (e) (asks-Inv server t s.interval s.fetch)
]

set_interval-Inv :
    (server : ℕ → Reply) (t : String) (s : Screen) → Inv server s → Inv server (set_interval t s)
unfolding set_interval
set_interval-Inv server t s v = elim (Bool-cases (str_eq t s.interval)) [
  | inl e ↦ rw (e) (v)
  | inr e ↦ rw (e) (asks-Inv server s.symbol t s.fetch)
]

sent-answer :
    (n : ℕ) (r : Reply) (f : Fetch (String × String)) → (answer failure n r f).sent ≡ f.sent
unfolding answer settle
sent-answer n r f = ground arith

step-Inv :
    (server : ℕ → Reply) (s : Screen) (e : Event) → Inv server s → Inv server (step server s e)
unfolding step
step-Inv server s (chooses_symbol t) v = set_symbol-Inv server t s v
step-Inv server s (chooses_interval t) v = set_interval-Inv server t s v
step-Inv server s (arrives n) v = record {
  asked = ap latest (sent-answer n (server n) s.fetch) ∙ v.asked;
  shown = answer-Shown failure server n s.fetch v.shown;
}

run-Inv :
    (server : ℕ → Reply) (es : List Event) (s : Screen)
    → Inv server s
    → Inv server (run server s es)
run-Inv server [] s v = v
run-Inv server (e ∷ es) s v = run-Inv server es (step server s e) (step-Inv server s e v)

-- However the user chooses symbols and intervals and in whatever order the server's answers arrive,
-- the last request is the one for the symbol and the interval that are chosen; and unless the card
-- shows its spinner, it shows the points of the server's answer to that request, or of the error.
pub run-shown :
    (server : ℕ → Reply) (es : List Event)
    → let s = run server mount es in
      let res = data_of failure (server (length s.fetch.sent)) in
      (latest s.fetch.sent ≡ some (s.symbol, s.interval))
      × ((view s ≡ spinner) ⊎ (view s ≡ chart_of (points res)))
unfolding mount view
run-shown server es =
    let v = run-Inv server es mount (asks-Inv server "AAPL" "1d" mounted) in
    let s = run server mount es in
    (
      v.asked,
      elim (Bool-cases s.fetch.loading) [
        | inl e ↦ inl (rw (e) refl)
        | inr e ↦ inr (rw (e) (ap (λ r. chart_of (points r)) (v.shown e)))
      ],
    )
