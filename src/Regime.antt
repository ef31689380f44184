-- ===== src/Regime.antt =====
-- pages/MarketRegime.jsx: the segments of equal regime that `buildSegments` shades in the chart. A
-- time is a number, and a regime is given by its text.
pub mod Segments
pub mod Viewing
pub mod Palette
use algorithmic_trading_simu.Prelude.{ℕ, not, String, str_eq, List, [], ◌∷◌, ◌++◌, if◌then◌else◌}

pub record Point : Type 0 where
  pub time : ℕ
  pub regime : String

pub record Segment : Type 0 where
  pub x1 : ℕ
  pub x2 : ℕ
  pub regime : String

-- The loop, from its second point on; at its end the last segment is pushed.
unfoldable pub build_from : Point → Point → List Point → List Segment → List Segment
build_from start prev [] segs =
    segs ++ record { x1 = start.time; x2 = prev.time; regime = prev.regime } ∷ []
build_from start prev (p ∷ ps) segs =
    let changed = not (str_eq p.regime prev.regime) in
    let pushed = segs ++ record { x1 = start.time; x2 = prev.time; regime = prev.regime } ∷ [] in
    build_from (if changed then p else start) p ps (if changed then pushed else segs)

unfoldable pub build_segments : List Point → List Segment
unfolding build_from
build_segments [] = []
build_segments (p ∷ ps) = build_from p p ps []
