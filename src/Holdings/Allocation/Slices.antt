-- ===== src/Holdings/Allocation/Slices.antt =====
-- Which slices there are, and when they are drawn.
use algorithmic_trading_simu.Prelude.{
  ℕ, ◌≡◌, refl, true, false, not, String, List, [], ◌∷◌, select, arith, ◌∙◌,
}
use algorithmic_trading_simu.Prelude.Sorting.{sorted, sorted-sort, some_of, some_of-sort}
use algorithmic_trading_simu.Js.{Number, Value}
use algorithmic_trading_simu.Holdings.{array_or_empty}
use algorithmic_trading_simu.Holdings.Allocation.{
  Slice, is_above_zero, by_value, map_slices, slices, has_wrapper, Pie, mount, Event,
  positions_change, size_changes, step, run, draws,
}

none_selected :
    (ds : List Slice) → some_of (λ d. not (is_above_zero d)) (select is_above_zero ds) ≡ false
none_selected [] = refl
none_selected (d ∷ ds) = ground (arith, none_selected ds)

-- The slices are in the order of their values, the largest first, and each is above 0.
slices_lem :
    (clean : String → Number) (positions : Value)
    → (sorted by_value (slices clean positions) ≡ true)
      × (some_of (λ d. not (is_above_zero d)) (slices clean positions) ≡ false)
unfolding slices
slices_lem clean positions =
    let ds = select is_above_zero (map_slices clean (array_or_empty positions)) in
    (
      sorted-sort by_value (λ a b e. ground arith) ds,
      some_of-sort by_value (λ d. not (is_above_zero d)) ds
          ∙ none_selected (map_slices clean (array_or_empty positions)),
    )

record Blind (p : Pie) : Type 0 where
  pub unseen : p.observed ≡ false
  pub flat : p.width ≡ 0

step-Blind : (clean : String → Number) (p : Pie) (e : Event) → Blind p → Blind (step clean p e)
unfolding step
step-Blind clean p (positions_change v) b = record { unseen = b.unseen; flat = b.flat }
step-Blind clean p (size_changes w) b = rw (b.unseen) (record { unseen = refl; flat = b.flat })

run-Blind : (clean : String → Number) (es : List Event) (p : Pie) → Blind p → Blind (run clean p es)
run-Blind clean [] p b = b
run-Blind clean (e ∷ es) p b = run-Blind clean es (step clean p e) (step-Blind clean p e b)

-- A pie that was mounted without a slice never draws its ring, whatever positions it gets and however
-- the size changes afterwards.
mount-draws :
    (clean : String → Number) (client_width : ℕ) (positions : Value) (es : List Event)
    → has_wrapper (slices clean positions) ≡ false
    → draws (run clean (mount clean client_width positions) es) ≡ false
unfolding draws mount
mount-draws clean client_width positions es h =
    let q = run clean (mount clean client_width positions) es in
    let b =
      run-Blind clean es (mount clean client_width positions)
        (record { unseen = h; flat = rw (h) refl }) in
    ground (arith, b.flat)
