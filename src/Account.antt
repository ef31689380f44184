-- ===== src/Account.antt =====
-- pages/Account.jsx: the user's record, the change of the password and the reset. A text has one unit
-- for each character; toasts are kept in order.
pub mod Changing
pub mod Paper
use algorithmic_trading_simu.Prelude.{
  ℕ, suc, ◌-◌, ◌==◌, Bool, true, false, not, ◌||◌, Option, none, some, String, str_eq, List, [],
  ◌∷◌, ◌++◌, if◌then◌else◌, ltb,
}
use algorithmic_trading_simu.Js.{Value, null, string, truthy, or_else, opt_get}
use algorithmic_trading_simu.Auth.{
  AuthState, Reply, replied, failed, Outcome, resolved, rejected, type_error, fetch_me,
  change_password,
}
use algorithmic_trading_simu.SignIn.{text_length}

pub data Toast : Type 0 where
  succeeded : String → Toast
  complained : Value → Toast

-- Where a reset is: asking /portfolio/reset, then reading the user again.
pub data Reset : Type 0 where
  idle clearing reading : Reset

-- `sent` holds the pairs of current and new passwords, `unanswered` the calls for them.
pub record Page : Type 0 where
  pub auth : AuthState
  pub me : Value
  pub current : String
  pub next : String
  pub confirm : String
  pub saving : Bool
  pub reset : Reset
  pub toasts : List Toast
  pub sent : List (String × String)
  pub unanswered : ℕ

abbrev pub open_page : AuthState → Page
open_page auth = record {
  auth = auth;
  me = auth.user;
  current = "";
  next = "";
  confirm = "";
  saving = false;
  reset = idle;
  toasts = [];
  sent = [];
  unanswered = 0;
}

abbrev pub say : Toast → Page → Page
say t p = record p { toasts = p.toasts ++ t ∷ [] }

-- The answer to the call of the effect, which the store gets as well.
unfoldable pub me_answer : Reply → Page → Page
unfolding fetch_me
me_answer (replied d) p = record p { auth = (fetch_me (replied d) p.auth).0; me = d }
me_answer (failed err) p = p

-- `submitPassword`, up to its `await`, from a button that is off while it saves.
unfoldable pub submit_password : Page → Page
unfolding text_length
submit_password p =
    if p.saving
    then p
    else if ltb (text_length p.next) 8
    then say (complained (string "New password must be at least 8 characters")) p
    else if not (str_eq p.next p.confirm)
    then say (complained (string "New password and confirmation do not match")) p
    else record p {
      saving = true;
      sent = p.sent ++ (p.current, p.next) ∷ [];
      unanswered = suc p.unanswered;
    }

-- `err?.response?.data?.detail || "Could not change password"`.
abbrev pub change_error : Value → Value
change_error err =
    or_else (opt_get "detail" (opt_get "data" (opt_get "response" err)))
      (string "Could not change password")

-- The rest of it, by how the call ended.
unfoldable pub finish_change : Outcome → Page → Page
finish_change (resolved d) p = record p {
  toasts = p.toasts ++ succeeded "Password updated" ∷ [];
  current = "";
  next = "";
  confirm = "";
  saving = false;
  unanswered = p.unanswered - 1;
}
finish_change (rejected err) p = record p {
  toasts = p.toasts ++ complained (change_error err) ∷ [];
  saving = false;
  unanswered = p.unanswered - 1;
}
finish_change type_error p = record p {
  toasts = p.toasts ++ complained (string "Could not change password") ∷ [];
  saving = false;
  unanswered = p.unanswered - 1;
}

unfoldable pub password_answer : Reply → Page → Page
unfolding finish_change change_password
password_answer r p = finish_change (change_password r p.auth).1 p

abbrev pub is_idle : Reset → Bool
is_idle idle = true
is_idle _ = false

-- `doReset`, with the answer to `window.confirm`, from a button that is off while it resets.
unfoldable pub do_reset : Bool → Page → Page
do_reset agreed p =
    if is_idle p.reset then if agreed then record p { reset = clearing } else p else p

-- The answer of /portfolio/reset, and then that of /auth/me, whose failure counts as `null`.
unfoldable pub reset_answer : Reply → Page → Page
reset_answer (replied d) p = record p { reset = reading }
reset_answer (failed err) p = say (complained (string "Reset failed")) (record p { reset = idle })

-- `await fetchMe().catch(() => null)`.
abbrev pub fresh_of : Reply → Value
fresh_of (replied d) = d
fresh_of (failed err) = null

unfoldable pub fresh_answer : Reply → Page → Page
unfolding fetch_me
fresh_answer r p =
    let fresh = fresh_of r in
    say (succeeded "Account reset to starting balance") (record p {
      auth = (fetch_me r p.auth).0;
      me = if truthy fresh then fresh else p.me;
      reset = idle;
    })

-- An answer comes only while its call is unanswered.
pub data Event : Type 0 where
  enters : String → String → String → Event
  submits : Event
  resets : Bool → Event
  answers_me answers_password answers_reset : Reply → Event

unfoldable pub step : Page → Event → Page
unfolding submit_password do_reset me_answer password_answer reset_answer fresh_answer
step p (enters current next confirm) = record p {
  current = current;
  next = next;
  confirm = confirm;
}
step p submits = submit_password p
step p (resets agreed) = do_reset agreed p
step p (answers_me r) = me_answer r p
step p (answers_password r) = if p.unanswered == 0 then p else password_answer r p
step p (answers_reset r) = elim p.reset [
  | idle ↦ p
  | clearing ↦ reset_answer r p
  | reading ↦ fresh_answer r p
]

abbrev pub run : Page → List Event → Page
run p [] = p
run p (e ∷ es) = run (step p e) es
