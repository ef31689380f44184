-- ===== src/Trade/Desk/Reloading.antt =====
-- What the page does after an order.
use algorithmic_trading_simu.Prelude.{ℕ, suc, ◌+◌, ◌≡◌, true, false, some, arith}
use algorithmic_trading_simu.Js.{Number, Value, get, null}
use algorithmic_trading_simu.Auth.{Reply, replied, failed}
use algorithmic_trading_simu.Portfolio
use algorithmic_trading_simu.Portfolio.{fetch_portfolio, portfolio_of, get_portfolio, is_success}
use algorithmic_trading_simu.Trade.Desk.{Desk, order_answer}

module _ (convert : Value → Number) where
  answered :
      (r : Reply) (h : Portfolio.Hook) (n : ℕ)
      → h.unanswered ≡ suc n
      → (Portfolio.step convert h (Portfolio.answers r)).unanswered ≡ n
  unfolding Portfolio.step Portfolio.answer
  answered (failed err) h n u = ground (arith, u)
  answered (replied v) h n u = ground (arith, u)

  brought :
      (after : Value) (h : Portfolio.Hook) (n : ℕ)
      → is_success (get_portfolio convert after).status ≡ true
      → h.unanswered ≡ suc n
      → let k = Portfolio.step convert h (Portfolio.answers (replied after)) in
        (k.portfolio ≡ portfolio_of (get_portfolio convert after))
        × (k.error ≡ null)
        × (k.loading ≡ false)
        × (k.unanswered ≡ n)
  unfolding Portfolio.step Portfolio.answer
  brought after h n g u = ground (arith, g, u)

  -- An answer to a call of the hook.
  abbrev pub portfolio_answer : Reply → Desk → Desk
  portfolio_answer r d = record d { hook = Portfolio.step convert d.hook (Portfolio.answers r) }

  -- When an order succeeded while no call of the hook was unanswered, two calls of the hook and two
  -- for the recent trades start. The first answer of the hook may be anything: if the second one
  -- brings a portfolio, the page shows it, with no error, and waits for no other.
  pub executed_order :
      (res action after : Value) (first : Reply) (d : Desk)
      → d.hook.unanswered ≡ 0
      → get "action" res ≡ some action
      → is_success (get_portfolio convert after).status ≡ true
      → let placed = order_answer (replied res) d in
        let e = portfolio_answer (replied after) (portfolio_answer first placed) in
        (placed.hook.unanswered ≡ 2)
        × (placed.loads ≡ d.loads + 2)
        × (e.hook.portfolio ≡ portfolio_of (get_portfolio convert after))
        × (e.hook.error ≡ null)
        × (e.hook.loading ≡ false)
        × (e.hook.unanswered ≡ 0)
  unfolding order_answer Portfolio.step
  executed_order res action after first d u a g =
      let placed = order_answer (replied res) d in
      let due : placed.hook.unanswered ≡ 2 = ground (arith, u, a) in
      let loads : placed.loads ≡ d.loads + 2 = ground (arith, a) in
      let one : (portfolio_answer first placed).hook.unanswered ≡ 1 =
        answered first placed.hook 1 due in
      let (p, e, l, n) = brought after (portfolio_answer first placed).hook 0 g one in
      (due, loads, p, e, l, n)
