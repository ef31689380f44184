-- ===== src/Equity.antt =====
-- components/charts/EquityChart.jsx: the account's curve, polled every 5 seconds. Times and amounts are
-- numbers as in Js; the percentage is a parameter.
use algorithmic_trading_simu.Prelude.{
  ◌≡◌, ap, ◌∙◌, Bool, true, false, List, [], ◌∷◌, if◌then◌else◌, arith,
}
use algorithmic_trading_simu.Prelude.Int.{
  ℤ, pos, ◌+ℤ◌, ◌-ℤ◌, ltb_ℤ, +ℤ_parts, -ℤ_parts, eq_of_parts,
}
use algorithmic_trading_simu.Js.{Number, finite, Value, Items, nil, cons, array, opt_get, to_number}
use algorithmic_trading_simu.Auth.{Reply, replied, failed}

pub record Chart : Type 0 where
  pub curve : Items
  pub loaded : Bool

abbrev pub mounted : Chart
mounted = record { curve = nil; loaded = false }

-- `Array.isArray(v) ? v : []`.
abbrev pub array_or_empty : Value → Items
array_or_empty (array xs) = xs
array_or_empty _ = nil

-- The answer to a poll of a mounted chart; a failed one leaves the curve.
unfoldable pub answer : Reply → Chart → Chart
answer (replied d) c = record { curve = array_or_empty (opt_get "equityCurve" d); loaded = true }
answer (failed err) c = record c { loaded = true }

pub record Point : Type 0 where
  pub time : ℤ
  pub equity : ℤ

-- The points with a finite time and a finite equity.
abbrev pub point : Number → Number → List Point → List Point
point (finite t) (finite e) rest = record { time = t; equity = e } ∷ rest
point _ _ rest = rest

unfoldable pub series : (Value → Number) → Items → List Point
series convert nil = []
series convert (cons d ds) =
    point (to_number convert (opt_get "time" d)) (to_number convert (opt_get "equity" d))
      (series convert ds)

-- `s[0]?.equity ?? 0` and `s[s.length - 1]?.equity ?? 0`.
abbrev pub first_equity : List Point → ℤ
first_equity [] = pos 0
first_equity (p ∷ ps) = p.equity

abbrev pub last_equity : List Point → ℤ
last_equity [] = pos 0
last_equity (p ∷ []) = p.equity
last_equity (p ∷ q ∷ ps) = last_equity (q ∷ ps)

unfoldable pub change : List Point → ℤ
change s = last_equity s -ℤ first_equity s

unfoldable pub change_pct : (ℤ → ℤ → Number) → List Point → Number
unfolding change
change_pct percent s =
    if ltb_ℤ (pos 0) (first_equity s) then percent (change s) (first_equity s) else finite (pos 0)

-- The sum of the changes from each point to the next.
abbrev pub steps : List Point → ℤ
steps [] = pos 0
steps (p ∷ []) = pos 0
steps (p ∷ q ∷ ps) = (q.equity -ℤ p.equity) +ℤ steps (q ∷ ps)

step_over : (a b l : ℤ) → l -ℤ a ≡ (b -ℤ a) +ℤ (l -ℤ b)
step_over a b l =
    eq_of_parts (l -ℤ a) ((b -ℤ a) +ℤ (l -ℤ b))
      (omega (arith, -ℤ_parts l a, -ℤ_parts b a, -ℤ_parts l b, +ℤ_parts (b -ℤ a) (l -ℤ b)))

no_step : (a : ℤ) → a -ℤ a ≡ pos 0
no_step a = eq_of_parts (a -ℤ a) (pos 0) (omega (arith, -ℤ_parts a a))

-- The change that the chart shows is the sum of the changes from each point to the next.
change-steps : (s : List Point) → change s ≡ steps s
unfolding change
change-steps [] = no_step (pos 0)
change-steps (p ∷ []) = no_step p.equity
change-steps (p ∷ q ∷ ps) =
    step_over p.equity q.equity (last_equity (q ∷ ps))
    ∙ ap (λ d. (q.equity -ℤ p.equity) +ℤ d) (change-steps (q ∷ ps))
