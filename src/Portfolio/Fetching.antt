-- ===== src/Portfolio/Fetching.antt =====
-- What the pages may rely on in the portfolio, and overlapping fetches.
use algorithmic_trading_simu.Prelude.{
  ◌≡◌, refl, Bool, true, false, ◌&&◌, List, [], ◌∷◌, arith, Bool-cases, inl, inr, ◌==◌,
}
use algorithmic_trading_simu.Js.{Number, nan, Value, undefined, number, truthy}
use algorithmic_trading_simu.Auth.{Reply, replied, failed}
use algorithmic_trading_simu.Portfolio.{
  Summary, get_portfolio, Portfolio, Hook, start, or_zero, portfolio_of, is_success,
  fetch_portfolio, answer, Event, fetches, answers, step, run,
}

-- A number that is not NaN.
abbrev pub is_clean : Value → Bool
is_clean (number nan) = false
is_clean (number n) = true
is_clean _ = false

abbrev pub clean_or_missing : Value → Bool
clean_or_missing undefined = true
clean_or_missing v = is_clean v

-- The positions are truthy, and the amounts are numbers but not NaN; the two that the hook's first
-- value lacks may be missing.
abbrev pub displayable : Portfolio → Bool
displayable p =
    truthy p.positions
    && is_clean p.total_equity
    && clean_or_missing p.cash_balance
    && clean_or_missing p.market_value
    && is_clean p.total_pnl
    && is_clean p.unrealized_pnl
    && is_clean p.realized_pnl
    && is_clean p.pnl_percentage

or_zero-clean : (n : Number) → (is_clean (or_zero n) ≡ true) × (clean_or_missing (or_zero n) ≡ true)
or_zero-clean n = ground arith

portfolio_of-displayable : (res : Summary) → displayable (portfolio_of res) ≡ true
unfolding portfolio_of
portfolio_of-displayable res = ground (
  arith,
  or_zero-clean res.total_equity,
  or_zero-clean res.cash_balance,
  or_zero-clean res.market_value,
  or_zero-clean res.total_pnl,
  or_zero-clean res.unrealized_pnl,
  or_zero-clean res.realized_pnl,
  or_zero-clean res.pnl_percentage,
)

answer-displayable :
    (convert : Value → Number) (r : Reply) (h : Hook)
    → displayable h.portfolio ≡ true
    → displayable (answer convert r h).portfolio ≡ true
unfolding answer
answer-displayable convert (failed err) h d = d
answer-displayable convert (replied v) h d =
    let res = get_portfolio convert v in
    elim (Bool-cases (is_success res.status)) [
      | inl good ↦ rw (good) (portfolio_of-displayable res)
      | inr bad ↦ rw (bad) (d)
    ]

step-displayable :
    (convert : Value → Number) (h : Hook) (e : Event)
    → displayable h.portfolio ≡ true
    → displayable (step convert h e).portfolio ≡ true
unfolding step fetch_portfolio
step-displayable convert h fetches d = d
step-displayable convert h (answers r) d = elim (Bool-cases (h.unanswered == 0)) [
  | inl out ↦ rw (out) (d)
  | inr due ↦ rw (due) (answer-displayable convert r h d)
]

-- Whatever the server answers, in whatever order fetches and answers come: the positions that the
-- hook returns are truthy, and its amounts are numbers and not NaN, but that the cash balance and
-- the market value may be undefined.
pub run-displayable :
    (convert : Value → Number) (es : List Event)
    → displayable (run convert start es).portfolio ≡ true
run-displayable convert es = go es start refl
  where
    go :
        (es : List Event) (h : Hook)
        → displayable h.portfolio ≡ true
        → displayable (run convert h es).portfolio ≡ true
    go [] h d = d
    go (e ∷ es) h d = go es (step convert h e) (step-displayable convert h e d)

-- Fetches that overlap are not told apart. When the later of two is answered first, with `newer`,
-- the hook no longer says that it is loading although a call is unanswered, and the answer of the
-- earlier one, `older`, then replaces the newer portfolio, provided the status of both is success.
overtaken_fetch :
    (convert : Value → Number) (newer older : Value) (h : Hook)
    → h.unanswered ≡ 0
    → is_success (get_portfolio convert newer).status ≡ true
    → is_success (get_portfolio convert older).status ≡ true
    → let f = run convert h (fetches ∷ fetches ∷ answers (replied newer) ∷ []) in
      let g = run convert f (answers (replied older) ∷ []) in
      (f.portfolio ≡ portfolio_of (get_portfolio convert newer))
      × (f.loading ≡ false)
      × (f.unanswered ≡ 1)
      × (g.portfolio ≡ portfolio_of (get_portfolio convert older))
unfolding step fetch_portfolio answer
overtaken_fetch convert newer older h none_out good_newer good_older = ground arith
