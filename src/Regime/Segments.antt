-- ===== src/Regime/Segments.antt =====
-- The segments against the maximal runs of equal regime.
use algorithmic_trading_simu.Prelude.{
  ◌≡◌, refl, sym, ap, ◌∙◌, Bool, true, false, not, ◌&&◌, String, str_eq, eq_iff, List, [], ◌∷◌,
  ◌++◌, map, if◌then◌else◌, arith, append_assoc, Bool-cases, inl, inr,
}
use algorithmic_trading_simu.Regime.{Point, Segment, build_from, build_segments}

-- A nonempty run of points.
pub record Run : Type 0 where
  pub first : Point
  pub rest : List Point

abbrev pub last_of : Point → List Point → Point
last_of p [] = p
last_of p (q ∷ qs) = last_of q qs

abbrev pub segment_of : Run → Segment
segment_of r = record {
  x1 = r.first.time;
  x2 = (last_of r.first r.rest).time;
  regime = (last_of r.first r.rest).regime;
}

-- A point before some runs: it joins the first one if it has the regime of its first point.
abbrev pub prepend : Point → List Run → List Run
prepend p [] = record { first = p; rest = [] } ∷ []
prepend p (r ∷ rs) =
    if str_eq r.first.regime p.regime
    then record { first = p; rest = r.first ∷ r.rest } ∷ rs
    else record { first = p; rest = [] } ∷ r ∷ rs

abbrev pub runs : List Point → List Run
runs [] = []
runs (p ∷ ps) = prepend p (runs ps)

-- The points of some runs.
abbrev pub points : List Run → List Point
points [] = []
points (r ∷ rs) = r.first ∷ r.rest ++ points rs

-- All points of a run have its first point's regime.
abbrev pub uniform : String → List Point → Bool
uniform g [] = true
uniform g (p ∷ ps) = str_eq p.regime g && uniform g ps

-- Each run has one regime, and the next run has another.
abbrev pub maximal : List Run → Bool
maximal [] = true
maximal (r ∷ []) = uniform r.first.regime r.rest
maximal (r ∷ s ∷ rs) =
    uniform r.first.regime r.rest && not (str_eq s.first.regime r.first.regime) && maximal (s ∷ rs)

points-prepend : (p : Point) (rs : List Run) → points (prepend p rs) ≡ p ∷ points rs
points-prepend p [] = refl
points-prepend p (r ∷ rs) = elim (Bool-cases (str_eq r.first.regime p.regime)) [
  | inl e ↦ rw (e) refl
  | inr e ↦ rw (e) refl
]

points-runs : (ps : List Point) → points (runs ps) ≡ ps
points-runs [] = refl
points-runs (p ∷ ps) = points-prepend p (runs ps) ∙ ap (p ∷◌) (points-runs ps)

uniform_same :
    (g h : String) (ps : List Point) → str_eq g h ≡ true → uniform g ps ≡ true → uniform h ps ≡ true
uniform_same g h [] e u = refl
uniform_same g h (p ∷ ps) e u = ground (arith, eq_iff g h, uniform_same g h ps)

maximal-prepend : (p : Point) (rs : List Run) → maximal rs ≡ true → maximal (prepend p rs) ≡ true
maximal-prepend p [] m = refl
maximal-prepend p (r ∷ []) m = elim (Bool-cases (str_eq r.first.regime p.regime)) [
  | inl e ↦ rw (e) (ground (arith, uniform_same r.first.regime p.regime r.rest))
  | inr e ↦ rw (e) (ground arith)
]
maximal-prepend p (r ∷ s ∷ rs) m = elim (Bool-cases (str_eq r.first.regime p.regime)) [
  | inl e ↦
      rw (e) (
        ground (arith, eq_iff r.first.regime p.regime, uniform_same r.first.regime p.regime r.rest))
  | inr e ↦ rw (e) (ground arith)
]

maximal-runs : (ps : List Point) → maximal (runs ps) ≡ true
maximal-runs [] = refl
maximal-runs (p ∷ ps) = maximal-prepend p (runs ps) (maximal-runs ps)

-- The segments of some runs, the first of which started earlier.
abbrev started : Point → List Run → List Segment
started start [] = []
started start (r ∷ rs) = record (segment_of r) { x1 = start.time } ∷ map segment_of rs

started-prepend :
    (start prev p : Point) (rs : List Run)
    → (str_eq p.regime prev.regime) ≡ true
    → started start (prepend prev (prepend p rs)) ≡ started start (prepend p rs)
started-prepend start prev p [] h = rw (h) refl
started-prepend start prev p (r ∷ rs) h = elim (Bool-cases (str_eq r.first.regime p.regime)) [
  | inl e ↦ rw (e, h) refl
  | inr e ↦ rw (e, h) refl
]

-- Where the regime changes, the first run is `prev` alone.
changed-prepend :
    (start prev p : Point) (rs : List Run)
    → (str_eq p.regime prev.regime) ≡ false
    → started start (prepend prev (prepend p rs))
      ≡ record { x1 = start.time; x2 = prev.time; regime = prev.regime } ∷ started p (prepend p rs)
changed-prepend start prev p [] h = rw (h) refl
changed-prepend start prev p (r ∷ rs) h = elim (Bool-cases (str_eq r.first.regime p.regime)) [
  | inl e ↦ rw (e, h) refl
  | inr e ↦ rw (e, h) refl
]

build_from-runs :
    (start prev : Point) (ps : List Point) (segs : List Segment)
    → build_from start prev ps segs ≡ segs ++ started start (runs (prev ∷ ps))
unfolding build_from
build_from-runs start prev [] segs = refl
build_from-runs start prev (p ∷ ps) segs = elim (Bool-cases (str_eq p.regime prev.regime)) [
  | inl e ↦
      rw (e, build_from)
        (build_from-runs start p ps segs
          ∙ ap (segs ++◌) (sym (started-prepend start prev p (runs ps) e)))
  | inr e ↦
      rw (e, build_from)
        (let pushed : Segment = record { x1 = start.time; x2 = prev.time; regime = prev.regime } in
          build_from-runs p p ps (segs ++ pushed ∷ [])
          ∙ append_assoc segs (pushed ∷ []) (started p (runs (p ∷ ps)))
          ∙ ap (segs ++◌) (sym (changed-prepend start prev p (runs ps) e)))
]

started-same :
    (p : Point) (rs : List Run) → started p (prepend p rs) ≡ map segment_of (prepend p rs)
started-same p [] = refl
started-same p (r ∷ rs) = elim (Bool-cases (str_eq r.first.regime p.regime)) [
  | inl e ↦ rw (e) refl
  | inr e ↦ rw (e) refl
]

build_segments_lem : (ps : List Point) → build_segments ps ≡ map segment_of (runs ps)
unfolding build_segments
build_segments_lem [] = refl
build_segments_lem (p ∷ ps) = build_from-runs p p ps [] ∙ started-same p (runs ps)

-- `buildSegments` gives one segment for each maximal run of points with one regime, from the time
-- of its first point to that of its last: the runs are the points in order, each has one regime,
-- and the next one has another.
pub build_segments-runs :
    (ps : List Point)
    → (rs : List Run) × (points rs ≡ ps)
      × (maximal rs ≡ true)
      × (build_segments ps ≡ map segment_of rs)
build_segments-runs ps = (runs ps, points-runs ps, maximal-runs ps, build_segments_lem ps)
