-- ===== src/Candles/Outliers.antt =====
-- What `removeOutlierCandles` leaves of candles whose prices are all above 0.
use algorithmic_trading_simu.Prelude.{
  ℕ, zero, suc, ◌-◌, ◌*◌, ◌/◌, ◌%◌, ◌<◌, ◌≤◌, ◌≡◌, refl, sym, ◌∙◌, Bool, true, false, not, ◌&&◌,
  List, [], ◌∷◌, map, length, select, ltb, leb, ◌==◌, arith, Bool-cases, inl, inr,
}
use algorithmic_trading_simu.Prelude.Int.{ℤ, pos, pos_part, ltb_ℤ, ◌+ℤ◌}
use algorithmic_trading_simu.Prelude.Sorting.{
  sort, sorted, sorted-sort, length-sort, some_of, some_of-sort,
}
use algorithmic_trading_simu.Candles.{
  Candle, by_size, nth, double_median, is_plausible, remove_outlier_candles,
}

abbrev pub is_positive_price : ℤ → Bool
is_positive_price n = ltb_ℤ (pos 0) n

-- All four prices are above 0.
abbrev pub has_prices : Candle → Bool
has_prices c =
    is_positive_price c.first
    && is_positive_price c.high
    && is_positive_price c.low
    && is_positive_price c.close

abbrev pub all_have_prices : List Candle → Bool
all_have_prices [] = true
all_have_prices (c ∷ cs) = has_prices c && all_have_prices cs

some_of-nth :
    (p : ℤ → Bool) (n : ℕ) (xs : List ℤ) → n < length xs → p (nth n xs) ≡ true → some_of p xs ≡ true
some_of-nth p n [] l h = absurd (omega arith)
some_of-nth p zero (x ∷ xs) l h = ground arith
some_of-nth p (suc n) (x ∷ xs) l h = ground (arith, some_of-nth p n xs)

none_at :
    (p : ℤ → Bool) (n : ℕ) (xs : List ℤ)
    → n < length xs
    → some_of p xs ≡ false
    → p (nth n xs) ≡ false
none_at p n xs l h = elim (Bool-cases (p (nth n xs))) [
  | inl e ↦ absurd (ground (arith, some_of-nth p n xs))
  | inr e ↦ e
]

nth_ordered :
    (n : ℕ) (xs : List ℤ)
    → suc n < length xs
    → sorted by_size xs ≡ true
    → by_size (nth n xs) (nth (suc n) xs) ≡ true
nth_ordered n [] l s = absurd (omega arith)
nth_ordered n (x ∷ []) l s = absurd (omega arith)
nth_ordered zero (x ∷ y ∷ xs) l s = ground arith
nth_ordered (suc n) (x ∷ y ∷ xs) l s = nth_ordered n (y ∷ xs) (omega arith) (ground arith)

-- Not too far from twice a median above 0.
abbrev near : ℤ → ℤ → Bool
near m x = leb (35 * pos_part m) (200 * pos_part x) && leb (20 * pos_part x) (28 * pos_part m)

-- The upper one of two positive numbers in order is near their mean.
pair_near :
    (a x : ℤ)
    → is_positive_price a ≡ true
    → is_positive_price x ≡ true
    → by_size a x ≡ true
    → (ltb_ℤ (pos 0) (a +ℤ x) ≡ true) × (near (a +ℤ x) x ≡ true)
unfolding ◌+ℤ◌
pair_near a x ha hx o = ground arith

positive_at :
    (n : ℕ) (xs : List ℤ)
    → n < length xs
    → some_of (λ x. not (is_positive_price x)) xs ≡ false
    → is_positive_price (nth n xs) ≡ true
positive_at n xs l p = ground (arith, none_at (λ x. not (is_positive_price x)) n xs l p)

-- The upper one of the middle closes is near their median, which is above 0.
middle_near :
    (xs : List ℤ)
    → 10 ≤ length xs
    → sorted by_size xs ≡ true
    → some_of (λ x. not (is_positive_price x)) xs ≡ false
    → (ltb_ℤ (pos 0) (double_median xs) ≡ true)
      × (near (double_median xs) (nth (length xs / 2) xs) ≡ true)
unfolding double_median
middle_near xs l s p =
    let mid = length xs / 2 in
    let hx = positive_at mid xs (omega arith) p in
    elim (Bool-cases (length xs % 2 == 0)) [
      | inl e ↦ rw (e) (
          pair_near (nth (mid - 1) xs) (nth mid xs) (positive_at (mid - 1) xs (omega arith) p) hx
            (rw one_below at (nth_ordered (mid - 1) xs (omega arith) s)))
      | inr e ↦ rw (e) (pair_near (nth mid xs) (nth mid xs) hx hx (ground arith))
    ]
  where
    one_below : suc (length xs / 2 - 1) ≡ length xs / 2
    one_below = omega arith

some_of-map :
    (p : ℤ → Bool) (cs : List Candle)
    → some_of p (map (λ c. c.close) cs) ≡ some_of (λ c. p c.close) cs
some_of-map p [] = refl
some_of-map p (c ∷ cs) = ground (arith, some_of-map p cs)

length-map : (cs : List Candle) → length (map (λ c. c.close) cs) ≡ length cs
length-map [] = refl
length-map (c ∷ cs) = ground (arith, length-map cs)

closes_positive :
    (cs : List Candle)
    → all_have_prices cs ≡ true
    → some_of (λ c. not (is_positive_price c.close)) cs ≡ false
closes_positive [] h = refl
closes_positive (c ∷ cs) h = ground (arith, closes_positive cs)

near_kept :
    (m : ℤ) (cs : List Candle)
    → all_have_prices cs ≡ true
    → some_of (λ c. near m c.close) cs ≡ true
    → 0 < length (select (is_plausible m) cs)
unfolding is_plausible
near_kept m [] h k = absurd (ground arith)
near_kept m (c ∷ cs) h k = ground (arith, near_kept m cs)

-- Candles whose prices are all above 0 are not all removed.
remove_outlier_candles-nonempty :
    (cs : List Candle)
    → all_have_prices cs ≡ true
    → 0 < length cs
    → 0 < length (remove_outlier_candles cs)
unfolding remove_outlier_candles
remove_outlier_candles-nonempty cs h l = elim (Bool-cases (ltb (length cs) 10)) [
  | inl few ↦ rw (few) l
  | inr many ↦
      let closes = map (λ c. c.close) cs in
      let xs = sort by_size closes in
      let long : length xs ≡ length cs = length-sort by_size closes ∙ length-map cs in
      let (good, near_mid) =
        middle_near xs (ground (arith, long)) (sorted-sort by_size (λ a b e. ground arith) closes) (
          some_of-sort by_size (λ x. not (is_positive_price x)) closes
          ∙ some_of-map (λ x. not (is_positive_price x)) cs
          ∙ closes_positive cs h) in
      rw (many, good)
        (near_kept (double_median xs) cs h (
          sym (some_of-map (near (double_median xs)) cs)
          ∙ sym (some_of-sort by_size (near (double_median xs)) closes)
          ∙ some_of-nth (near (double_median xs)) (length xs / 2) xs (ground (arith, long))
              near_mid))
]
