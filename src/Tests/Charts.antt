-- ===== src/Tests/Charts.antt =====
-- The charts at concrete points.
use algorithmic_trading_simu.Prelude.{◌≡◌, true, List, [], ◌∷◌, map}
use algorithmic_trading_simu.Regime.{Point, build_segments}
use algorithmic_trading_simu.Regime.Segments.{Run, segment_of, points, maximal, build_segments-runs}

abbrev days : List Point
days =
    record { time = 1; regime = "Bull" }
    ∷ record { time = 2; regime = "Bull" }
    ∷ record { time = 3; regime = "Bear" }
    ∷ []

build_segments-runs_example :
    (rs : List Run) × (points rs ≡ days)
    × (maximal rs ≡ true)
    × (build_segments days ≡ map segment_of rs)
build_segments-runs_example = build_segments-runs days
