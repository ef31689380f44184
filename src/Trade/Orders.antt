-- ===== src/Trade/Orders.antt =====
-- Which orders leave the ticket.
use algorithmic_trading_simu.Prelude.{
  ℕ, suc, ◌-◌, ◌*◌, ◌<◌, leb, ltb, ◌∙◌, ◌≡◌, refl, Bool, true, false, not, ◌&&◌, Option, none, some,
  String, str_eq, List, [], ◌∷◌, ◌++◌, if◌then◌else◌, arith, Bool-cases, inl, inr, ◌==◌,
}
use algorithmic_trading_simu.Js.{Number, finite, number, Value, is_finite, is_positive, to_number}
use algorithmic_trading_simu.Prelude.Int.{pos, ◌*ℤ◌}
use algorithmic_trading_simu.Auth.{Reply, replied, failed}
use algorithmic_trading_simu.Trade.{
  is_limit, buy, OrderType, market, limit, Props, Order, Ticket, start, estimated, ref_price, mul,
  funds_error, validation_error, order_of, submit, answer, Event, set_side, set_qty,
  set_limit_price, set_order_type, submits, answers, step, run, complained,
}

-- A limit order has a positive price, and a market order none.
abbrev pub limit_fits : OrderType → Option Number → Bool
limit_fits market none = true
limit_fits limit (some n) = is_positive n
limit_fits _ _ = false

-- An order for a symbol, of a finite quantity above 0, with a limit price that fits its type.
abbrev pub fits : Order → Bool
fits o =
    not (str_eq o.symbol "")
    && is_finite o.quantity
    && is_positive o.quantity
    && limit_fits o.order_type o.limit_price

abbrev pub all_fit : List Order → Bool
all_fit [] = true
all_fit (o ∷ os) = fits o && all_fit os

pub record Inv (t : Ticket) : Type 0 where
  -- One order is unanswered while the ticket is submitting, and none otherwise.
  pub single : t.unanswered ≡ (if t.submitting then 1 else 0)
  pub good : all_fit t.sent ≡ true

all_fit-append :
    (os : List Order) (o : Order)
    → all_fit os ≡ true
    → fits o ≡ true
    → all_fit (os ++ o ∷ []) ≡ true
all_fit-append [] o h k = ground arith
all_fit-append (x ∷ os) o h k = ground (arith, all_fit-append os o)

fits-order_of :
    (convert : Value → Number) (p : Props) (t : Ticket)
    → validation_error convert p t ≡ none
    → fits (order_of convert p t) ≡ true
unfolding validation_error order_of
fits-order_of convert p t h = ground arith

-- The two tests of `submit`.
module _ (order : Order) (t : Ticket) (v : Inv t) where
  tested-Inv :
      (busy : Bool) (error : Option String)
      → t.submitting ≡ busy
      → (error ≡ none → fits order ≡ true)
      → Inv (
          if busy then t else elim error [
            | some message ↦ record t { toasts = t.toasts ++ complained message ∷ [] }
            | none ↦ record t {
              submitting = true;
              sent = t.sent ++ order ∷ [];
              unanswered = suc t.unanswered;
            }
          ])
  tested-Inv true error h k = v
  tested-Inv false (some message) h k = record { single = v.single; good = v.good }
  tested-Inv false none h k = record {
    single = ground (arith, v.single);
    good = all_fit-append t.sent order v.good (k refl);
  }

submit-Inv : (convert : Value → Number) (p : Props) (t : Ticket) → Inv t → Inv (submit convert p t)
unfolding submit
submit-Inv convert p t v =
    tested-Inv (order_of convert p t) t v t.submitting (validation_error convert p t) refl
      (fits-order_of convert p t)

-- What an answer does to the orders, on both branches.
answer_keeps :
    (r : Reply) (t : Ticket)
    → ((answer r t).submitting ≡ false)
      × ((answer r t).unanswered ≡ t.unanswered - 1)
      × ((answer r t).sent ≡ t.sent)
unfolding answer
answer_keeps (failed err) t = (refl, refl, refl)
answer_keeps (replied d) t = ground arith

answer-Inv : (r : Reply) (t : Ticket) → Inv t → Inv (answer r t)
answer-Inv r t v = record {
  single = ground (arith, answer_keeps r t, v.single);
  good = ground (arith, answer_keeps r t, v.good);
}

step-Inv : (convert : Value → Number) (t : Ticket) (e : Event) → Inv t → Inv (step convert t e)
unfolding step
step-Inv convert t (set_side s) v = record { single = v.single; good = v.good }
step-Inv convert t (set_qty q) v = record { single = v.single; good = v.good }
step-Inv convert t (set_limit_price q) v = record { single = v.single; good = v.good }
step-Inv convert t (set_order_type o) v = record { single = v.single; good = v.good }
step-Inv convert t (submits p) v = submit-Inv convert p t v
step-Inv convert t (answers r) v = elim (Bool-cases (t.unanswered == 0)) [
  | inl out ↦ rw (out, step) v
  | inr due ↦ rw (due, step) (answer-Inv r t v)
]

-- Whatever the user enters and however the server answers, in any order: at most one order is
-- unanswered, exactly while the ticket is submitting, and every order that was sent names a symbol,
-- has a finite quantity above 0, and has a limit price above 0 if it is a limit order and none if
-- it is a market order.
pub run-OneOrder : (convert : Value → Number) (es : List Event) → Inv (run convert start es)
run-OneOrder convert es = go es start (record { single = refl; good = refl })
  where
    go : (es : List Event) (t : Ticket) → Inv t → Inv (run convert t es)
    go [] t v = v
    go (e ∷ es) t v = go es (step convert t e) (step-Inv convert t e v)

-- The price per share that a ticket is estimated at, in cents: the limit price of a limit order,
-- and otherwise the live price.
abbrev pub Costs : (Value → Number) → Props → Ticket → ℕ → Type 0
Costs convert p t c =
    (if is_limit t.order_type then number (to_number convert t.limit_price) else p.live_price)
    ≡ number (finite (pos c))

estimated_lem :
    (convert : Value → Number) (p : Props) (t : Ticket) (q c : ℕ)
    → to_number convert t.qty ≡ finite (pos q)
    → 0 < c
    → Costs convert p t c
    → estimated convert p t ≡ finite (pos (q * c))
unfolding estimated ref_price mul ◌*ℤ◌
estimated_lem convert p t q c quantity priced costs = ground arith

scaled : (q c b : ℕ) → ltb (100 * b) (q * (100 * c)) ≡ not (leb (q * c) b)
scaled q c b =
    let e : q * (100 * c) ≡ 100 * (q * c) = omega arith in
    rw e
      (elim (Bool-cases (leb (q * c) b)) [ inl h ↦ ground (arith, h) | inr h ↦ ground (arith, h) ])

funds_error_lem :
    (convert : Value → Number) (p : Props) (t : Ticket) (n : ℕ) (b : ℕ)
    → t.side ≡ buy
    → estimated convert p t ≡ finite (pos n)
    → p.buying_power ≡ finite (pos b)
    → funds_error convert p t ≡ (if ltb b n then some "Insufficient buying power" else none)
unfolding funds_error
funds_error_lem convert p t n b side cost funds = ground (arith, side, cost, funds)

purchase-error :
    (convert : Value → Number) (p : Props) (t : Ticket) (q c : ℕ)
    → str_eq p.symbol "" ≡ false
    → to_number convert t.qty ≡ finite (pos q)
    → 0 < q
    → 0 < c
    → Costs convert p t c
    → validation_error convert p t ≡ funds_error convert p t
unfolding validation_error
purchase-error convert p t q c symbol quantity some_q some_c costs = ground arith

submit_lem :
    (convert : Value → Number) (p : Props) (t : Ticket) (b : Bool)
    → t.submitting ≡ false
    → validation_error convert p t ≡ (if b then none else some "Insufficient buying power")
    → ((submit convert p t).sent ≡ (if b then t.sent ++ order_of convert p t ∷ [] else t.sent))
      × ((submit convert p t).toasts
          ≡ (if b then t.toasts else t.toasts ++ complained "Insufficient buying power" ∷ []))
unfolding submit
submit_lem convert p t b idle e = ground (arith, idle, e)

-- A click on a purchase of `q` shares at `c` dollars each (the limit price of a limit order, and
-- otherwise the live price), with `b` dollars of buying power, for a symbol and while no order is
-- awaited, where q, c and b are whole and q and c above 0: the order is sent if q * c is at most b,
-- and otherwise the ticket says "Insufficient buying power" and sends nothing.
pub sent-submit :
    (convert : Value → Number) (p : Props) (t : Ticket) (q c b : ℕ)
    → t.side ≡ buy
    → t.submitting ≡ false
    → str_eq p.symbol "" ≡ false
    → to_number convert t.qty ≡ finite (pos q)
    → 0 < q
    → 0 < c
    → Costs convert p t (100 * c)
    → p.buying_power ≡ finite (pos (100 * b))
    → let d = submit convert p t in
      (d.sent ≡ (if leb (q * c) b then t.sent ++ order_of convert p t ∷ [] else t.sent))
      × (d.toasts ≡ (
          if leb (q * c) b
          then t.toasts
          else t.toasts ++ complained "Insufficient buying power" ∷ []))
sent-submit convert p t q c b side idle symbol quantity some_q some_c costs funds =
    let price : 0 < 100 * c = omega (arith, some_c) in
    let cost = estimated_lem convert p t q (100 * c) quantity price costs in
    let error =
      purchase-error convert p t q (100 * c) symbol quantity some_q price costs
      ∙ funds_error_lem convert p t (q * (100 * c)) (100 * b) side cost funds in
    submit_lem convert p t (leb (q * c) b) idle (ground (arith, error, scaled q c b))
