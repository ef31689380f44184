-- ===== src/Heatmap/Colours.antt =====
-- The colours that the map gives.
use native.Mathlib.Nat.{le-div_iff_mul-le, div-lt_iff_lt-mul, mul-le-mul_right, mul-add}
use algorithmic_trading_simu.Prelude.{
  ℕ, suc, ◌+◌, ◌-◌, ◌*◌, ◌/◌, ◌≤◌, ◌<◌, min, max, ◌≡◌, ap, inl, inr, lt_or_le, arith,
}
use algorithmic_trading_simu.Heatmap.{nth, stops, channel, segment, turbo}

-- A number within those of two stops.
abbrev pub Between : ℕ → ℕ → ℕ → Type 0
Between a b c = (min a b ≤ c) × (c ≤ max a b)

whole : (m q r : ℕ) → r ≤ q → m * (q - r + r) ≡ m * q
whole m q r h = ap (λ n. m * n) (omega (arith, h))

weighted_le : (a b m r q : ℕ) → r ≤ q → a ≤ m → b ≤ m → a * (q - r) + b * r ≤ m * q
weighted_le a b m r q h k l =
    omega
      (arith, mul-le-mul_right (q - r) k, mul-le-mul_right r l, mul-add m (q - r) r, whole m q r h)

le_weighted : (a b m r q : ℕ) → r ≤ q → m ≤ a → m ≤ b → m * q ≤ a * (q - r) + b * r
le_weighted a b m r q h k l =
    omega
      (arith, mul-le-mul_right (q - r) k, mul-le-mul_right r l, mul-add m (q - r) r, whole m q r h)

channel-Between : (a b r q : ℕ) → 0 < q → r ≤ q → Between a b (channel a b r q)
unfolding channel
channel-Between a b r q pos h =
    let low = le_weighted a b (min a b) r q h (omega arith) (omega arith) in
    let high = weighted_le a b (max a b) r q h (omega arith) (omega arith) in
    (
      (le-div_iff_mul-le (omega (arith, pos))).1 (omega (arith, low)),
      omega (
        arith,
        (div-lt_iff_lt-mul {k = 2 * q} {x = 2 * (a * (q - r) + b * r) + q} {y = suc (max a b)}
              (omega (arith, pos))).1
            (omega (arith, high, pos)),
      ),
    )

segment_le : (s q : ℕ) → segment s q ≤ 6
unfolding segment
segment_le s q = omega arith

-- What is left of seg beyond its segment is at most 1, for a t that is at most 1.
rest_le : (p q : ℕ) → 0 < q → p ≤ q → p * 7 - segment (p * 7) q * q ≤ q
unfolding segment
rest_le p q pos h =
    let next = (div-lt_iff_lt-mul {k = q} {x = p * 7} {y = suc (p * 7 / q)} pos).0 (omega arith) in
    elim (lt_or_le (p * 7 / q) 6) [
      | inl low ↦
          let same : min 6 (p * 7 / q) ≡ p * 7 / q = omega (arith, low) in
          omega (arith, next, ap (λ i. i * q) same)
      | inr high ↦
          let same : min 6 (p * 7 / q) ≡ 6 = omega (arith, high) in
          omega (arith, h, ap (λ i. i * q) same)
    ]

-- The colour of a t between 0 and 1 has its channels between those of two neighbouring stops.
turbo-Between :
    (p q : ℕ)
    → 0 < q
    → let i = segment (min p q * 7) q in
      let c = nth i stops in
      let d = nth (suc i) stops in
      (i ≤ 6)
      × Between c.r d.r (turbo p q).r
      × Between c.g d.g (turbo p q).g
      × Between c.b d.b (turbo p q).b
unfolding turbo
turbo-Between p q pos =
    let x = min p q in
    let i = segment (x * 7) q in
    let c = nth i stops in
    let d = nth (suc i) stops in
    let r = x * 7 - i * q in
    let h = rest_le x q pos (omega arith) in
    (
      segment_le (x * 7) q,
      channel-Between c.r d.r r q pos h,
      channel-Between c.g d.g r q pos h,
      channel-Between c.b d.b r q pos h,
    )
