-- ===== src/Trade/Panel/Replies.antt =====
-- What TradingPanel makes of a reply without `success`, such as the backend's TradeResponse.
use algorithmic_trading_simu.Prelude.{
  ◌≡◌, refl, ap, true, false, none, some, String, [], ◌∷◌, ◌++◌, suc, ◌-◌,
}
use algorithmic_trading_simu.Js.{Number, Value, Fields, object, truthy, lookup}
use algorithmic_trading_simu.Auth.{replied}
use algorithmic_trading_simu.Trade
use algorithmic_trading_simu.Trade.{Side, Ticket, succeeded}
use algorithmic_trading_simu.Trade.Panel.{
  Panel, validate, payload, handle_trade, answer, complain, limit_error,
}

sends_order :
    (convert : Value → Number) (action : Side) (p : Panel)
    → p.loading ≡ false
    → validate convert p ≡ none
    → handle_trade convert action p ≡ record p {
      loading = true;
      error = none;
      success = none;
      sent = p.sent ++ payload convert action p ∷ [];
      unanswered = suc p.unanswered;
    }
unfolding handle_trade
sends_order convert action p idle ok = simp (idle, ok) refl

fails_without_success :
    (to_text : Value → String) (p : Panel) (fs : Fields)
    → truthy (lookup "data" fs) ≡ false
    → truthy (lookup "success" fs) ≡ false
    → truthy (lookup "message" fs) ≡ false
    → answer to_text (replied (object fs)) p
      ≡ record p { error = some "Trade failed"; loading = false; unanswered = p.unanswered - 1 }
unfolding answer complain
fails_without_success to_text p fs d s m = simp (d, s, m) refl

-- An order whose reply is an object without `data`, `success` and `message` is shown as failed, with
-- its inputs kept, so that another click sends the same order again; the order ticket shows the same
-- reply as a success.
pub executed_as_failed :
    (convert : Value → Number) (to_text : Value → String) (action : Side) (p : Panel) (fs : Fields)
    (t : Ticket)
    → p.loading ≡ false
    → validate convert p ≡ none
    → truthy (lookup "data" fs) ≡ false
    → truthy (lookup "success" fs) ≡ false
    → truthy (lookup "message" fs) ≡ false
    → let order = payload convert action p in
      let q = answer to_text (replied (object fs)) (handle_trade convert action p) in
      (q.error ≡ some "Trade failed")
      × (q.success ≡ none)
      × ((handle_trade convert action q).sent ≡ (p.sent ++ order ∷ []) ++ order ∷ [])
      × ((Trade.answer (replied (object fs)) t).toasts ≡ t.toasts ++ succeeded (object fs) ∷ [])
unfolding validate limit_error Trade.answer
executed_as_failed convert to_text action p fs t idle ok d s m =
    let p1 : Panel = record p {
      loading = true;
      error = none;
      success = none;
      sent = p.sent ++ payload convert action p ∷ [];
      unanswered = suc p.unanswered;
    } in
    let p2 : Panel = record p1 {
      error = some "Trade failed";
      loading = false;
      unanswered = p1.unanswered - 1;
    } in
    rw (sends_order convert action p idle ok) (
      rw (fails_without_success to_text p1 fs d s m)
        (refl, refl, ap (λ r. r.sent) (sends_order convert action p2 refl ok), refl))
