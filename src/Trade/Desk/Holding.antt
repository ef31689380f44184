-- ===== src/Trade/Desk/Holding.antt =====
-- What the page lets the user sell.
use algorithmic_trading_simu.Prelude.{◌≡◌, refl, ap, Bool, true, false, ◌||◌, none, String, arith}
use algorithmic_trading_simu.Prelude.Int.{pos}
use algorithmic_trading_simu.Js.{
  Number, finite, Value, Items, nil, cons, undefined, opt_get, is_positive, to_number,
}
use algorithmic_trading_simu.Holdings.{array_or_empty}
use algorithmic_trading_simu.Trade.{sell, gt, Props, Ticket, funds_error, validation_error, submit}
use algorithmic_trading_simu.Trade.Desk.{
  Desk, n, is_text, find_position, shares_owned, props, click,
}

-- Whether one of the positions has the symbol.
abbrev pub holds : String → Items → Bool
holds s nil = false
holds s (cons x xs) = is_text s (opt_get "symbol" x) || holds s xs

find_unheld : (s : String) (xs : Items) → holds s xs ≡ false → find_position s xs ≡ undefined
find_unheld s nil h = refl
find_unheld s (cons x xs) h = ground (arith, h, find_unheld s xs)

gt_zero : (a : Number) → gt a (finite (pos 0)) ≡ is_positive a
gt_zero (finite a) = refl
gt_zero Number.infinity = refl
gt_zero Number.neg_infinity = refl
gt_zero Number.nan = refl

-- Without shares no quantity is valid for a sale.
sale-error :
    (convert : Value → Number) (p : Props) (t : Ticket)
    → t.side ≡ sell
    → p.shares_owned ≡ finite (pos 0)
    → validation_error convert p t ≡ none
    → false ≡ true
unfolding validation_error funds_error
sale-error convert p t s z h = ground (arith, s, z, h, gt_zero (to_number convert t.qty))

submit_invalid :
    (convert : Value → Number) (p : Props) (t : Ticket)
    → (validation_error convert p t ≡ none → false ≡ true)
    → (submit convert p t).sent ≡ t.sent
unfolding submit
submit_invalid convert p t h = ground (arith, h)

-- A click on a sale of a symbol that no position has sends no order.
sale_unheld :
    (convert : Value → Number) (d : Desk)
    → d.ticket.side ≡ sell
    → holds d.symbol (array_or_empty d.hook.portfolio.positions) ≡ false
    → (click convert d).ticket.sent ≡ d.ticket.sent
unfolding click props shares_owned
sale_unheld convert d s h =
    let found = find_unheld d.symbol (array_or_empty d.hook.portfolio.positions) h in
    submit_invalid convert (props d) d.ticket
      (sale-error convert (props d) d.ticket s (ap (λ p. n (opt_get "quantity" p)) found))
