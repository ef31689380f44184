-- ===== src/Simulation.antt =====
-- components/ui/MonteCarloViz.jsx: the domain of the chart, the pacing of its animation, and the
-- numbers that it shows beside it. Frames carry whole milliseconds, prices count cents, and
-- fractions are compared exactly, by their numerators. The cosine is a parameter, as a count of
-- k-ths; the drawing itself is left out, and the two canvases are mounted.
pub mod Settling
use algorithmic_trading_simu.Prelude.{
  ℕ, zero, suc, ◌+◌, ◌-◌, ◌*◌, Bool, true, false, not, ◌&&◌, ◌||◌, Option, none, some, List, [],
  ◌∷◌, length, min, if◌then◌else◌, ltb, leb, ◌==◌,
}
use algorithmic_trading_simu.Prelude.Int.{
  ℤ, pos, negsuc, pos_part, neg_part, ltb_ℤ, leb_ℤ, ◌+ℤ◌, ◌-ℤ◌, ◌*ℤ◌,
}

abbrev pub duration : ℕ
duration = 7600

-- Hundredths of a run.
abbrev pub stagger : ℕ
stagger = 46

abbrev pub travel : ℕ
travel = 50

-- The properties of the component that matter here.
pub record Props : Type 0 where
  pub paths : List (List ℤ)
  pub time_axis : List ℤ
  pub histogram : List ℤ
  pub strike : ℤ
  pub mc_price : ℤ

unfoldable pub ready : Props → Bool
ready p = ltb 0 (length p.paths) && ltb 1 (length p.time_axis) && ltb 0 (length p.histogram)

abbrev pub lower : ℤ → ℤ → ℤ
lower a b = if ltb_ℤ b a then b else a

abbrev pub upper : ℤ → ℤ → ℤ
upper a b = if ltb_ℤ a b then b else a

-- The bounds after some values, from the ones before; `none` for the infinite ones at the start.
abbrev pub widen : Option (ℤ × ℤ) → ℤ → Option (ℤ × ℤ)
widen none v = some (v, v)
widen (some (lo, hi)) v = some (lower lo v, upper hi v)

unfoldable pub scan_values : List ℤ → Option (ℤ × ℤ) → Option (ℤ × ℤ)
scan_values [] b = b
scan_values (v ∷ vs) b = scan_values vs (widen b v)

unfoldable pub scan_paths : List (List ℤ) → Option (ℤ × ℤ) → Option (ℤ × ℤ)
unfolding scan_values
scan_paths [] b = b
scan_paths (p ∷ ps) b = scan_paths ps (scan_values p b)

-- A count of twenty-fifths of a cent, since the margin is 0.08 of the spread.
abbrev pub margin : ℤ → ℤ → ℤ
margin lo hi =
    let d = hi -ℤ lo in if pos_part d == 0 && neg_part d == 0 then pos 2500 else d *ℤ pos 2

-- `domain`: its bounds, in twenty-fifths of a cent.
unfoldable pub domain : Props → Option (ℤ × ℤ)
unfolding ready scan_paths
domain p = if not (ready p) then none else elim (widen (scan_paths p.paths none) p.strike) [
  | none ↦ none
  | some (lo, hi) ↦ some (lo *ℤ pos 25 -ℤ margin lo hi, hi *ℤ pos 25 +ℤ margin lo hi)
]

-- Whether the path i of n has landed at u milliseconds of the run: `(u - launches[i]) / TRAVEL >= 1`,
-- with a launch of 0 for a single path and i / (n - 1) * STAGGER otherwise.
unfoldable pub finished : ℕ → ℕ → ℕ → Bool
finished n u i =
    if n == 1
    then leb (travel * duration) (100 * u)
    else leb ((stagger * i + travel * (n - 1)) * duration) (100 * (n - 1) * u)

-- The count of `drawPaths` over the first paths.
unfoldable pub landed : ℕ → ℕ → ℕ → ℕ
unfolding finished
landed n u zero = 0
landed n u (suc i) = landed n u i + (if finished n u i then 1 else 0)

-- What runs and what is shown. An estimate counts cents, times `20 * n * k`.
pub record Viz : Type 0 where
  pub running : Bool
  pub completed : ℕ
  pub estimate : ℤ
  pub last_stat : Option (ℕ × ℤ)
  pub begun : Option ℕ
  pub progress : ℕ
  pub frame_due : Bool

-- What the browser calls: a frame, with its time, or the observer.
pub data Event : Type 0 where
  frame : ℕ → Event
  resizes : Event

module _ (k : ℕ) (cosine : ℕ → ℕ → ℤ) (p : Props) where
  abbrev pub n_paths : ℕ
  n_paths = length p.paths

  abbrev pub scale : ℕ
  scale = 20 * n_paths * k

  -- `est`: 0 before a path has landed, and then the price times 1 + 0.05 * cos(cf * 14) * (1 - cf).
  unfoldable pub estimate_at : ℕ → ℤ
  estimate_at done =
      if done == 0
      then pos 0
      else p.mc_price *ℤ (pos scale +ℤ cosine done n_paths *ℤ pos (n_paths - done))

  abbrev pub far_apart : ℤ → ℤ → Bool
  far_apart a b = let d = a -ℤ b in ltb scale (pos_part d + neg_part d)

  -- The test of the throttle.
  abbrev pub ticks : Option (ℕ × ℤ) → ℕ → ℤ → Bool
  ticks none done est = true
  ticks (some (d, e)) done est = not (done == d) || far_apart est e

  unfoldable pub render_frame : ℕ → Viz → Viz
  render_frame u v =
      let done = landed n_paths u n_paths in
      let est = estimate_at done in
      if ticks v.last_stat done est
      then record v { last_stat = some (done, est); completed = done; estimate = est }
      else v

  -- The effect, up to its first request of a frame.
  unfoldable pub begin : Viz → Viz
  begin v = elim (domain p) [
    | none ↦ v
    | some d ↦ record {
      running = true;
      completed = 0;
      estimate = pos 0;
      last_stat = none;
      begun = none;
      progress = 0;
      frame_due = true;
    }
  ]

  -- `tick` at u milliseconds of the run.
  unfoldable pub tick_at : ℕ → Viz → Viz
  tick_at u v =
      let drawn = render_frame u v in
      if ltb u duration
      then record drawn { frame_due = true }
      else record (render_frame duration drawn) { running = false; frame_due = false }

  abbrev pub start_of : Option ℕ → ℕ → ℕ
  start_of none ts = ts
  start_of (some t) ts = t

  -- `tick`, which runs only as a frame that was requested.
  unfoldable pub tick : ℕ → Viz → Viz
  tick ts v =
      let t = start_of v.begun ts in
      let u = min (ts - t) duration in
      if v.frame_due then tick_at u (record v { begun = some t; progress = u }) else v

  -- The observer of the size: the frame of the progress, or the last one at a progress of 0.
  unfoldable pub resize : Viz → Viz
  resize v = render_frame (if v.progress == 0 then duration else v.progress) v

  unfoldable pub step : Viz → Event → Viz
  step v (frame ts) = tick ts v
  step v resizes = resize v

  abbrev pub run : Viz → List Event → Viz
  run v [] = v
  run v (e ∷ es) = run (step v e) es
