-- ===== src/Holdings/Accounting.antt =====
-- The accounts of the table, with exact amounts.
use algorithmic_trading_simu.Prelude.{ℕ, ◌+◌, ◌*◌, ◌≡◌, refl, ap, arith}
use algorithmic_trading_simu.Prelude.Int.{
  ℤ, pos, pos_part, neg_part, ◌+ℤ◌, ◌-ℤ◌, ◌*ℤ◌, +ℤ_parts, -ℤ_parts, *ℤ_parts, eq_of_parts,
}
use algorithmic_trading_simu.Js.{Number, Value, Items, nil, cons}
use algorithmic_trading_simu.Market.Quotes.{Table}
use algorithmic_trading_simu.Portfolio.{Portfolio}
use algorithmic_trading_simu.Holdings.{Row, Snapshots, merge_row, merge_rows, sum_by, totals}

-- The same factor on both sides of an equation of two sums.
scaled : (a b c d e f k : ℕ) → a + b + c ≡ d + e + f → a * k + b * k + c * k ≡ d * k + e * k + f * k
scaled a b c d e f k h = omega (arith, ap (λ x. x * k) h)

-- What a position gained, and what it cost, make up what it is worth.
gain_and_cost : (p a q : ℤ) → (p -ℤ a) *ℤ q +ℤ q *ℤ a ≡ q *ℤ p
gain_and_cost p a q =
    let d = p -ℤ a in
    eq_of_parts (d *ℤ q +ℤ q *ℤ a) (q *ℤ p) (
      omega (
        arith,
        +ℤ_parts (d *ℤ q) (q *ℤ a),
        *ℤ_parts d q,
        *ℤ_parts q a,
        *ℤ_parts q p,
        scaled (pos_part d) (neg_part p) (pos_part a) (neg_part d) (pos_part p) (neg_part a)
            (pos_part q) (-ℤ_parts p a),
        scaled (pos_part d) (neg_part p) (pos_part a) (neg_part d) (pos_part p) (neg_part a)
            (neg_part q) (-ℤ_parts p a),
      ))

abbrev cost : Row → ℤ
cost r = r.quantity *ℤ r.avg_price

-- Moving one summand across three running sums.
sums_step : (g c v x y z : ℤ) → g +ℤ c ≡ v → x +ℤ y ≡ z → (g +ℤ x) +ℤ (c +ℤ y) ≡ v +ℤ z
sums_step g c v x y z h k = eq_of_parts ((g +ℤ x) +ℤ (c +ℤ y)) (v +ℤ z) (
    omega (
      arith,
      +ℤ_parts (g +ℤ x) (c +ℤ y),
      +ℤ_parts g x,
      +ℤ_parts c y,
      +ℤ_parts v z,
      +ℤ_parts g c,
      +ℤ_parts x y,
      ap pos_part h,
      ap neg_part h,
      ap pos_part k,
      ap neg_part k,
    ))

merge_row-gain :
    (convert : Value → Number) (percent : ℤ → ℤ → Number) (live : Table) (s : Snapshots) (p : Value)
    → let r = merge_row convert percent live s p in r.pnl +ℤ cost r ≡ r.market_value
unfolding merge_row
merge_row-gain convert percent live s p =
    let r = merge_row convert percent live s p in
    gain_and_cost r.current_price r.avg_price r.quantity

sums_agree :
    (convert : Value → Number) (percent : ℤ → ℤ → Number) (live : Table) (s : Snapshots)
    (ps : Items) (g c v : ℤ)
    → g +ℤ c ≡ v
    → let rows = merge_rows convert percent live s ps in
      sum_by (λ r. r.pnl) g rows +ℤ sum_by cost c rows ≡ sum_by (λ r. r.market_value) v rows
unfolding merge_rows sum_by
sums_agree convert percent live s nil g c v h = h
sums_agree convert percent live s (cons p ps) g c v h =
    let r = merge_row convert percent live s p in
    sums_agree convert percent live s ps (g +ℤ r.pnl) (c +ℤ cost r) (v +ℤ r.market_value)
      (sums_step g c v r.pnl (cost r) r.market_value h (merge_row-gain convert percent live s p))

-- With exact amounts, the unrealized profit of the totals and the cost of the positions (quantity
-- times average price) make up the sum of the market values of the rows.
totals-unrealized :
    (convert : Value → Number) (percent : ℤ → ℤ → Number) (live : Table) (s : Snapshots)
    (ps : Items) (p : Portfolio)
    → let rows = merge_rows convert percent live s ps in
      (totals convert percent p rows).unrealized +ℤ sum_by cost (pos 0) rows
      ≡ sum_by (λ r. r.market_value) (pos 0) rows
unfolding totals ◌+ℤ◌
totals-unrealized convert percent live s ps p =
    sums_agree convert percent live s ps (pos 0) (pos 0) (pos 0) refl
