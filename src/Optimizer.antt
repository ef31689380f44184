-- ===== src/Optimizer.antt =====
-- pages/Optimizer.jsx: the chosen symbols, the runs, and the bins that colour the frontier. Numbers
-- count a fixed unit and quotients are exact; the portfolios of a reply are read as points.
pub mod Bins
use algorithmic_trading_simu.Prelude.{
  ℕ, zero, suc, ◌-◌, ◌*◌, ◌/◌, Bool, true, false, not, ◌&&◌, ◌||◌, Option, none, some, String,
  str_eq, List, [], ◌∷◌, ◌++◌, length, select, if◌then◌else◌, ltb, leb, ◌==◌,
}
use algorithmic_trading_simu.Prelude.Int.{ℤ, pos, negsuc, pos_part, leb_ℤ, ◌-ℤ◌}
use algorithmic_trading_simu.Js.{Value, string, object, end, field}
use algorithmic_trading_simu.Auth.{Reply, replied, failed}

pub record Point : Type 0 where
  pub vol : ℤ
  pub ret : ℤ
  pub sharpe : ℤ

-- The colours, from a low Sharpe ratio to a high one.
abbrev pub ramp : List String
ramp = "#6366f1" ∷ "#3b82f6" ∷ "#06b6d4" ∷ "#14b8a6" ∷ "#22c55e" ∷ "#86efac" ∷ []

abbrev pub n_bins : ℕ
n_bins = length ramp

-- `Math.min(...)` and `Math.max(...)` of some ratios after another.
unfoldable pub lowest : ℤ → List Point → ℤ
lowest x [] = x
lowest x (p ∷ ps) = lowest (if leb_ℤ x p.sharpe then x else p.sharpe) ps

unfoldable pub highest : ℤ → List Point → ℤ
highest x [] = x
highest x (p ∷ ps) = highest (if leb_ℤ p.sharpe x then x else p.sharpe) ps

-- `hi - lo || 1`.
abbrev pub span_of : ℤ → ℤ → ℕ
span_of lo hi = let d = pos_part (hi -ℤ lo) in if d == 0 then 1 else d

-- The index of a ratio, clamped at both ends.
unfoldable pub bin_index : ℤ → ℕ → ℤ → ℕ
bin_index lo span s =
    let idx = pos_part (s -ℤ lo) * n_bins / span in if leb n_bins idx then n_bins - 1 else idx

abbrev pub empty_bins : ℕ → List (List Point)
empty_bins zero = []
empty_bins (suc n) = [] ∷ empty_bins n

-- `out[i].push(p)`.
unfoldable pub push_at : ℕ → Point → List (List Point) → List (List Point)
push_at i p [] = []
push_at zero p (b ∷ bs) = (b ++ p ∷ []) ∷ bs
push_at (suc i) p (b ∷ bs) = b ∷ push_at i p bs

unfoldable pub fill : (Point → ℕ) → List Point → List (List Point) → List (List Point)
unfolding push_at
fill index [] out = out
fill index (p ∷ ps) out = fill index ps (push_at (index p) p out)

unfoldable pub index_in : List Point → Point → ℕ
unfolding bin_index lowest highest
index_in [] q = 0
index_in (p ∷ ps) q =
    let lo = lowest p.sharpe ps in bin_index lo (span_of lo (highest p.sharpe ps)) q.sharpe

unfoldable pub bins : List Point → List (List Point)
unfolding fill index_in
bins [] = []
bins (p ∷ ps) = fill (index_in (p ∷ ps)) (p ∷ ps) (empty_bins n_bins)

-- The page: `asked` numbers the running effect and `requests` holds what each asked for.
pub record Page : Type 0 where
  pub selected : List String
  pub result : Value
  pub loading : Bool
  pub run_key : ℕ
  pub requests : List (ℕ × List String)

abbrev pub includes : String → List String → Bool
includes s [] = false
includes s (t ∷ ts) = str_eq t s || includes s ts

unfoldable pub toggle : String → Page → Page
toggle s p = record p {
  selected =
      if includes s p.selected
      then select (λ t. not (str_eq t s)) p.selected
      else p.selected ++ s ∷ [];
}

abbrev pub status : String → Value
status s = object (field "status" (string s) end)

-- The effect, up to its `await`.
unfoldable pub run_effect : Page → Page
run_effect p =
    if ltb (length p.selected) 2
    then record p { result = status "need_two_symbols"; loading = false }
    else record p { loading = true; requests = p.requests ++ (p.run_key, p.selected) ∷ [] }

-- The button.
unfoldable pub click_optimize : Page → Page
unfolding run_effect
click_optimize p =
    if p.loading || ltb (length p.selected) 2
    then p
    else run_effect (record p { run_key = suc p.run_key })

-- The answer to the effect of that number; `mounted` is true in the running one alone.
unfoldable pub answer : ℕ → Reply → Page → Page
answer asker (replied d) p =
    if asker == p.run_key then record p { result = d; loading = false } else p
answer asker (failed err) p =
    if asker == p.run_key then record p { result = status "error"; loading = false } else p
