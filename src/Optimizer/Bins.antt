-- ===== src/Optimizer/Bins.antt =====
-- The bins of the efficient frontier.
use native.Mathlib.Nat.{le-div_iff_mul-le, div-mul-le_self}
use algorithmic_trading_simu.Prelude.{
  ℕ, zero, suc, ◌*◌, ◌/◌, ◌<◌, ◌≤◌, ◌≡◌, refl, sym, ap, ◌∙◌, Bool, true, false, List, [], ◌∷◌, ◌++◌,
  append-nil, append_assoc, length, select, if◌then◌else◌, ◌==◌, arith,
}
use algorithmic_trading_simu.Prelude.Int.{ℤ, pos_part, leb_ℤ, ◌-ℤ◌}
use algorithmic_trading_simu.Optimizer.{
  Point, n_bins, span_of, bin_index, empty_bins, push_at, fill, index_in, bins, lowest, highest,
}

abbrev pub bin_at : ℕ → List (List Point) → List Point
bin_at i [] = []
bin_at zero (b ∷ bs) = b
bin_at (suc i) (b ∷ bs) = bin_at i bs

length-push_at : (i : ℕ) (p : Point) (bs : List (List Point)) → length (push_at i p bs) ≡ length bs
unfolding push_at
length-push_at i p [] = refl
length-push_at zero p (b ∷ bs) = refl
length-push_at (suc i) p (b ∷ bs) = ap suc (length-push_at i p bs)

bin_at-push_at :
    (i j : ℕ) (p : Point) (bs : List (List Point))
    → i < length bs
    → bin_at i (push_at j p bs) ≡ (if j == i then bin_at i bs ++ p ∷ [] else bin_at i bs)
unfolding push_at
bin_at-push_at i j p [] l = absurd (omega arith)
bin_at-push_at zero zero p (b ∷ bs) l = refl
bin_at-push_at (suc i) zero p (b ∷ bs) l = ground arith
bin_at-push_at zero (suc j) p (b ∷ bs) l = ground arith
bin_at-push_at (suc i) (suc j) p (b ∷ bs) l = bin_at-push_at i j p bs (omega arith) ∙ ground arith

bin_at-fill :
    (index : Point → ℕ) (i : ℕ) (ps : List Point) (bs : List (List Point))
    → i < length bs
    → bin_at i (fill index ps bs) ≡ bin_at i bs ++ select (λ q. index q == i) ps
unfolding fill
bin_at-fill index i [] bs l = sym (append-nil (bin_at i bs))
bin_at-fill index i (p ∷ ps) bs l =
    bin_at-fill index i ps (push_at (index p) p bs) (omega (arith, length-push_at (index p) p bs))
    ∙ rw (bin_at-push_at i (index p) p bs l) (ap_step (index p == i))
  where
    ap_step :
        (e : Bool)
        → (if e then bin_at i bs ++ p ∷ [] else bin_at i bs) ++ select (λ q. index q == i) ps
          ≡ bin_at i bs
            ++ (if e then p ∷ select (λ q. index q == i) ps else select (λ q. index q == i) ps)
    ap_step true = append_assoc (bin_at i bs) (p ∷ []) (select (λ q. index q == i) ps)
    ap_step false = refl

bin_at-empty_bins : (i n : ℕ) → bin_at i (empty_bins n) ≡ []
bin_at-empty_bins i zero = refl
bin_at-empty_bins zero (suc n) = refl
bin_at-empty_bins (suc i) (suc n) = bin_at-empty_bins i n

index_small : (lo : ℤ) (span : ℕ) (s : ℤ) → bin_index lo span s < n_bins
unfolding bin_index
index_small lo span s = ground arith

quotient_le : (a b k : ℕ) → 0 < k → a ≤ b → a / k ≤ b / k
quotient_le a b k h l = (le-div_iff_mul-le h).1 (omega (arith, div-mul-le_self a k))

scaled_le :
    (lo s t : ℤ) → leb_ℤ s t ≡ true → pos_part (s -ℤ lo) * n_bins ≤ pos_part (t -ℤ lo) * n_bins
unfolding ◌-ℤ◌
scaled_le lo s t l = ground arith

index_monotone :
    (lo : ℤ) (span : ℕ) (s t : ℤ)
    → 0 < span
    → leb_ℤ s t ≡ true
    → bin_index lo span s ≤ bin_index lo span t
unfolding bin_index
index_monotone lo span s t h l = ground (
  arith,
  quotient_le (pos_part (s -ℤ lo) * n_bins) (pos_part (t -ℤ lo) * n_bins) span h
      (scaled_le lo s t l),
)

span_positive : (lo hi : ℤ) → 0 < span_of lo hi
span_positive lo hi = ground arith

-- The bins of a frontier that is not empty share its points out by their Sharpe ratios: each of the
-- six holds, in order, the points of its index; every point has an index below six; and a point
-- whose ratio is not below another's does not have the lower index.
pub bins-graded :
    (p : Point) (ps : List Point) (i : ℕ) (q r : Point)
    → i < n_bins
    → leb_ℤ q.sharpe r.sharpe ≡ true
    → let index = index_in (p ∷ ps) in
      (bin_at i (bins (p ∷ ps)) ≡ select (λ x. index x == i) (p ∷ ps))
      × (index q < n_bins)
      × (index q ≤ index r)
unfolding bins index_in
bins-graded p ps i q r l h =
    let lo = lowest p.sharpe ps in
    let hi = highest p.sharpe ps in
    let span = span_of lo hi in
    (
      bin_at-fill (index_in (p ∷ ps)) i (p ∷ ps) (empty_bins n_bins) l
          ∙ ap (λ bs. bs ++ select (λ x. index_in (p ∷ ps) x == i) (p ∷ ps))
              (bin_at-empty_bins i n_bins),
      index_small lo span q.sharpe,
      index_monotone lo span q.sharpe r.sharpe (span_positive lo hi) h,
    )
