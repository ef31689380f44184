-- ===== src/Tests/Simulations.antt =====
-- The Monte Carlo animation and the optimizer's bins at concrete numbers.
use algorithmic_trading_simu.Prelude.{
  ℕ, ◌<◌, ◌≤◌, ◌≡◌, refl, arith, false, none, [], ◌∷◌, select, ◌==◌,
}
use algorithmic_trading_simu.Prelude.Int.{ℤ, pos, ◌*ℤ◌}
use algorithmic_trading_simu.Simulation.{Props, ready, Viz, frame, resizes, begin, step, run, scale}
use algorithmic_trading_simu.Simulation.Settling.{run-settles}
use algorithmic_trading_simu.Optimizer.{Point, index_in, bins, n_bins}
use algorithmic_trading_simu.Optimizer.Bins.{bin_at, bins-graded}

abbrev props : Props
props = record {
  paths = (pos 10000 ∷ pos 10400 ∷ []) ∷ (pos 10000 ∷ pos 9700 ∷ []) ∷ [];
  time_axis = pos 0 ∷ pos 1 ∷ [];
  histogram = pos 1 ∷ pos 1 ∷ [];
  strike = pos 10000;
  mc_price = pos 250;
}

abbrev idle : Viz
idle = record {
  running = false;
  completed = 0;
  estimate = pos 0;
  last_stat = none;
  begun = none;
  progress = 0;
  frame_due = false;
}

-- A cosine that is always 1.
abbrev flat : ℕ → ℕ → ℤ
flat a b = pos 1

run-settles_example :
    let w =
      run 1 flat props
        (step 1 flat props
          (run 1 flat props
            (step 1 flat props (begin 1 flat props idle) (frame 50))
            (resizes ∷ frame 4000 ∷ []))
          (frame 7700))
        (resizes ∷ []) in
    (w.running ≡ false)
    × (w.frame_due ≡ false)
    × (w.completed ≡ 2)
    × (w.estimate ≡ pos 250 *ℤ pos (scale 1 flat props))
unfolding ready
run-settles_example =
    run-settles 1 flat props idle 50 7700 (resizes ∷ frame 4000 ∷ []) (resizes ∷ []) refl
      (omega arith)

abbrev portfolio : ℕ → Point
portfolio s = record { vol = pos 20; ret = pos 10; sharpe = pos s }

bins-graded_example :
    let index = index_in (portfolio 10 ∷ portfolio 40 ∷ portfolio 25 ∷ []) in
    (bin_at 5 (bins (portfolio 10 ∷ portfolio 40 ∷ portfolio 25 ∷ []))
      ≡ select (λ x. index x == 5) (portfolio 10 ∷ portfolio 40 ∷ portfolio 25 ∷ []))
    × (index (portfolio 25) < n_bins)
    × (index (portfolio 25) ≤ index (portfolio 40))
bins-graded_example =
    bins-graded (portfolio 10) (portfolio 40 ∷ portfolio 25 ∷ []) 5 (portfolio 25) (portfolio 40)
      (omega arith) refl
