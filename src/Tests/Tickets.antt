-- ===== src/Tests/Tickets.antt =====
-- The order ticket at concrete entries.
use algorithmic_trading_simu.Prelude.{
  ◌≡◌, ◌*◌, refl, List, [], ◌∷◌, ◌++◌, leb, if◌then◌else◌, arith,
}
use algorithmic_trading_simu.Prelude.Int.{pos}
use algorithmic_trading_simu.Js.{Number, finite, nan, Value, number, string}
use algorithmic_trading_simu.Auth.{failed}
use algorithmic_trading_simu.Trade.{
  complained, Ticket, Props, start, sell, Event, set_side, set_qty, submits, answers, run, submit,
  order_of,
}
use algorithmic_trading_simu.Trade.Orders.{Inv, run-OneOrder, sent-submit}

abbrev convert : Value → Number
convert v = nan

-- ACME at 100 dollars, with 1000 dollars and 3 shares.
abbrev desk : Props
desk = record {
  symbol = "ACME";
  live_price = number (finite (pos 10000));
  buying_power = finite (pos 100000);
  shares_owned = finite (pos 3);
}

abbrev entries : List Event
entries =
    set_qty (number (finite (pos 2)))
    ∷ submits desk
    ∷ submits desk
    ∷ answers (failed (string "no"))
    ∷ set_side sell
    ∷ submits desk
    ∷ []

run-OneOrder_example : Inv (run convert start entries)
run-OneOrder_example = run-OneOrder convert entries

-- Eleven shares at 100 dollars are more than 1000 dollars buy.
abbrev large : Ticket
large = record start { qty = number (finite (pos 11)) }

sent-submit_example :
    ((submit convert desk large).sent
      ≡ (if leb (11 * 100) 1000 then [] ++ order_of convert desk large ∷ [] else []))
    × ((submit convert desk large).toasts
        ≡ (if leb (11 * 100) 1000 then [] else [] ++ complained "Insufficient buying power" ∷ []))
sent-submit_example =
    sent-submit convert desk large 11 100 1000 refl refl refl refl (omega arith) (omega arith) refl
      refl
