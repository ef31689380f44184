-- ===== src/Account/Paper.antt =====
-- pages/PaperAccount.jsx: the reset, which asks the portfolio hook to fetch again. The hook's fetch
-- never rejects, so that a reset succeeds whatever it brings.
use algorithmic_trading_simu.Prelude.{
  ◌≡◌, refl, Bool, true, false, ◌&&◌, List, [], ◌∷◌, ◌++◌, if◌then◌else◌, arith,
}
use algorithmic_trading_simu.Js.{Value, string, or_else, opt_get, Number}
use algorithmic_trading_simu.Auth.{AuthState, Reply, replied, failed, fetch_me}
use algorithmic_trading_simu.Portfolio
use algorithmic_trading_simu.Portfolio.{Hook, fetch_portfolio}
use algorithmic_trading_simu.Account.{
  Reset, idle, clearing, reading, is_idle, Toast, succeeded, complained,
}

pub record Paper : Type 0 where
  pub auth : AuthState
  pub me : Value
  pub confirm : Bool
  pub reset : Reset
  pub hook : Hook
  pub toasts : List Toast

abbrev pub opened : AuthState → Paper
opened auth = record {
  auth = auth;
  me = auth.user;
  confirm = false;
  reset = idle;
  hook = fetch_portfolio Portfolio.start;
  toasts = [];
}

-- The answer to the call of the effect.
unfoldable pub me_answer : Reply → Paper → Paper
unfolding fetch_me
me_answer (replied d) p = record p { auth = (fetch_me (replied d) p.auth).0; me = d }
me_answer (failed err) p = p

unfoldable pub username : Paper → Value
username p =
    or_else (opt_get "username" p.me) (or_else (opt_get "username" p.auth.user) (string "Trader"))

-- The two buttons of the question are shown while it is open, and off during a reset.
unfoldable pub cancel : Paper → Paper
cancel p = if p.confirm && is_idle p.reset then record p { confirm = false } else p

unfoldable pub do_reset : Paper → Paper
do_reset p = if p.confirm && is_idle p.reset then record p { reset = clearing } else p

-- The answer of /portfolio/reset, and then that of the hook's fetch.
unfoldable pub reset_answer : Reply → Paper → Paper
reset_answer (replied d) p = record p { reset = reading; hook = fetch_portfolio p.hook }
reset_answer (failed err) p = record p {
  reset = idle;
  toasts = p.toasts ++ complained (string "Reset failed. Try again.") ∷ [];
}

unfoldable pub refresh_answer : (Value → Number) → Reply → Paper → Paper
refresh_answer convert r p = record p {
  hook = Portfolio.step convert p.hook (Portfolio.answers r);
  toasts = p.toasts ++ succeeded "Paper account reset to starting balance" ∷ [];
  confirm = false;
  reset = idle;
}

pub data Event : Type 0 where
  asks cancels resets : Event
  answers_me answers_reset : Reply → Event

unfoldable pub step : (Value → Number) → Paper → Event → Paper
step convert p asks = record p { confirm = true }
step convert p cancels = cancel p
step convert p resets = do_reset p
step convert p (answers_me r) = me_answer r p
step convert p (answers_reset r) = elim p.reset [
  | idle ↦ p
  | clearing ↦ reset_answer r p
  | reading ↦ refresh_answer convert r p
]

abbrev pub run : (Value → Number) → Paper → List Event → Paper
run convert p [] = p
run convert p (e ∷ es) = run convert (step convert p e) es

-- During a reset the question is open.
abbrev Open : Paper → Type 0
Open p = is_idle p.reset ≡ false → p.confirm ≡ true

step-Open : (convert : Value → Number) (p : Paper) (e : Event) → Open p → Open (step convert p e)
unfolding step cancel do_reset me_answer reset_answer refresh_answer
step-Open convert p asks o = λ busy. refl
step-Open convert p cancels o = λ busy. ground (arith, busy, o)
step-Open convert p resets o = λ busy. ground (arith, busy, o)
step-Open convert p (answers_me (replied d)) o = o
step-Open convert p (answers_me (failed err)) o = o
step-Open convert p (answers_reset r) o = λ busy. ground (arith, busy, o)

-- Whatever the user clicks and the server answers, the question stays open as long as a reset runs.
run-open :
    (convert : Value → Number) (auth : AuthState) (es : List Event)
    → is_idle (run convert (opened auth) es).reset ≡ false
    → (run convert (opened auth) es).confirm ≡ true
run-open convert auth es = go es (opened auth) (λ busy. absurd (ground (arith, busy)))
  where
    go : (es : List Event) (p : Paper) → Open p → Open (run convert p es)
    go [] p o = o
    go (e ∷ es) p o = go es (step convert p e) (step-Open convert p e o)
