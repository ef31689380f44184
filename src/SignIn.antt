-- ===== src/SignIn.antt =====
-- The sign-in pages: pages/Register.jsx and pages/Login.jsx, their forms over the functions of
-- services/authService.js. The browser's own `required` checks and the markup are left out. `trim` is
-- a parameter, as is the message of a TypeError, and a text has one unit for each character.
pub mod Arrival
pub mod Registering
pub mod LoggingIn
pub mod Typewriter
use Prim.Native.Char.{Char, code}
use algorithmic_trading_simu.Prelude.{
  ℕ, zero, suc, ◌+◌, ◌-◌, Bool, true, false, not, ◌&&◌, ◌||◌, Option, none, some, String, str_eq,
  List, [], ◌∷◌, ◌++◌, if◌then◌else◌, ltb, leb, ◌==◌, min,
}
use algorithmic_trading_simu.Js.{Value, string, or_else, opt_get}
use algorithmic_trading_simu.Auth.{
  AuthState, Reply, Outcome, resolved, rejected, type_error, register, login, demo_login,
}

-- `text.length`.
unfoldable pub text_length : String → ℕ
text_length String.[] = 0
text_length (String.◌∷◌ c s) = suc (text_length s)

-- `pattern.test(text)`, for a class of characters.
abbrev pub test : (Char → Bool) → String → Bool
test p String.[] = false
test p (String.◌∷◌ c s) = p c || test p s

abbrev pub within : ℕ → ℕ → Char → Bool
within a b c = leb a (code c) && leb (code c) b

abbrev pub is_lower : Char → Bool
is_lower = within 97 122

abbrev pub is_upper : Char → Bool
is_upper = within 65 90

abbrev pub is_digit : Char → Bool
is_digit = within 48 57

abbrev pub is_special : Char → Bool
is_special c = not (is_upper c || is_lower c || is_digit c)

abbrev pub point : Bool → ℕ
point b = if b then 1 else 0

unfoldable pub score_password : String → ℕ
unfolding text_length
score_password pw =
    if str_eq pw ""
    then 0
    else min 4 (
        point (leb 8 (text_length pw))
        + point (leb 12 (text_length pw))
        + point (test is_lower pw && test is_upper pw)
        + point (test is_digit pw)
        + point (test is_special pw))

-- Register's state, the store that it signs in to, where it navigated, and the credentials that it
-- sent, with the number of calls that are unanswered.
pub record RegisterForm : Type 0 where
  pub username : String
  pub password : String
  pub confirm : String
  pub agree : Bool
  pub error : Value
  pub loading : Bool
  pub auth : AuthState
  pub location : Option String
  pub sent : List (String × String)
  pub unanswered : ℕ

-- `match`: whether the check mark is shown.
unfoldable pub matches : RegisterForm → Bool
unfolding text_length
matches f = ltb 0 (text_length f.confirm) && str_eq f.confirm f.password

-- `handleSubmit`, up to its `await`.
unfoldable pub handle_submit : (String → String) → RegisterForm → RegisterForm
unfolding text_length
handle_submit trim f =
    if f.loading
    then f
    else if ltb (text_length f.password) 8
    then record f { error = string "Password must be at least 8 characters" }
    else if not (str_eq f.password f.confirm)
    then record f { error = string "Passwords do not match" }
    else record f {
      error = string "";
      loading = true;
      sent = f.sent ++ (trim f.username, f.password) ∷ [];
      unanswered = suc f.unanswered;
    }

-- The button, which is disabled while a call runs and until the box is checked.
unfoldable pub click_create : (String → String) → RegisterForm → RegisterForm
unfolding handle_submit
click_create trim f = if f.loading || not f.agree then f else handle_submit trim f

abbrev pub register_error : Value → Value
register_error err =
    or_else (opt_get "message" err)
      (or_else (opt_get "detail" (opt_get "data" err)) (string "Registration failed"))

-- The rest of `handleSubmit`, by how the call ended.
unfoldable pub finish_register : Value → AuthState × Outcome → RegisterForm → RegisterForm
finish_register thrown (auth, resolved d) f = record f {
  auth = auth;
  location = some "/";
  loading = false;
  unanswered = f.unanswered - 1;
}
finish_register thrown (auth, rejected err) f = record f {
  auth = auth;
  error = register_error err;
  loading = false;
  unanswered = f.unanswered - 1;
}
finish_register thrown (auth, type_error) f = record f {
  auth = auth;
  error = thrown;
  loading = false;
  unanswered = f.unanswered - 1;
}

-- Login's state, likewise, with the calls of the two ways to sign in.
pub record LoginForm : Type 0 where
  pub username : String
  pub password : String
  pub error : Value
  pub loading : Bool
  pub demo_loading : Bool
  pub auth : AuthState
  pub location : Option String
  pub sent : List (String × String)
  pub unanswered : ℕ
  pub demo_unanswered : ℕ

-- `handleLogin` and `handleDemo`, up to their `await`.
unfoldable pub handle_login : (String → String) → LoginForm → LoginForm
handle_login trim f = if f.loading then f else record f {
  error = string "";
  loading = true;
  sent = f.sent ++ (trim f.username, f.password) ∷ [];
  unanswered = suc f.unanswered;
}

unfoldable pub handle_demo : LoginForm → LoginForm
handle_demo f = if f.demo_loading then f else record f {
  error = string "";
  demo_loading = true;
  demo_unanswered = suc f.demo_unanswered;
}

-- The error that both show: a message that is a text, or their own.
abbrev pub text_message : String → Value → Value
text_message default err = elim (opt_get "message" err) [ string s ↦ string s | _ ↦ string default ]

-- What both do with the end of a call, but for their flag.
unfoldable pub settle_login : Value → String → AuthState × Outcome → LoginForm → LoginForm
settle_login thrown default (auth, resolved d) f = record f { auth = auth; location = some "/" }
settle_login thrown default (auth, rejected err) f = record f {
  auth = auth;
  error = text_message default err;
}
settle_login thrown default (auth, type_error) f = record f { auth = auth; error = thrown }

unfoldable pub finish_login : Value → Reply → LoginForm → LoginForm
unfolding settle_login
finish_login thrown r f =
    settle_login thrown "Invalid credentials" (login r f.auth)
      (record f { loading = false; unanswered = f.unanswered - 1 })

unfoldable pub finish_demo : Value → Reply → LoginForm → LoginForm
unfolding settle_login
finish_demo thrown r f =
    settle_login thrown "Demo unavailable. Try again." (demo_login r f.auth)
      (record f { demo_loading = false; demo_unanswered = f.demo_unanswered - 1 })
