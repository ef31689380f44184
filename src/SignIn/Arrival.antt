-- ===== src/SignIn/Arrival.antt =====
-- What the end of a sign-in call leaves in the store, and what the routes then show.
use algorithmic_trading_simu.Prelude.{
  ◌≡◌, refl, ◌⊎◌, Bool, true, ◌&&◌, Option, none, some, String, str_eq, eq_iff, ap, arith, inl, inr,
}
use algorithmic_trading_simu.Js.{Value, undefined, null}
use algorithmic_trading_simu.Auth.{
  AuthState, Reply, replied, failed, Outcome, resolved, register, login, demo_login, adopt,
  set_auth,
}
use algorithmic_trading_simu.App.{page, dashboard, render, protected_route, table_get}

-- The store after a call with that end: signed in and as hydrated as before, or as it was.
abbrev pub Entry : AuthState → AuthState × Outcome → Type 0
Entry s (after, resolved d) =
    (after.is_authenticated ≡ true) × (after.has_hydrated ≡ s.has_hydrated)
Entry s (after, _) = after ≡ s

adopt-Entry : (d : Value) (s : AuthState) → Entry s (adopt d s)
unfolding adopt set_auth
adopt-Entry undefined s = refl
adopt-Entry null s = refl
adopt-Entry _ s = (refl, refl)

pub register-Entry : (r : Reply) (s : AuthState) → Entry s (register r s)
unfolding register
register-Entry (replied d) s = adopt-Entry d s
register-Entry (failed err) s = refl

pub login-Entry : (r : Reply) (s : AuthState) → Entry s (login r s)
unfolding login
login-Entry (replied d) s = adopt-Entry d s
login-Entry (failed err) s = refl

pub demo_login-Entry : (r : Reply) (s : AuthState) → Entry s (demo_login r s)
unfolding demo_login
demo_login-Entry (replied d) s = adopt-Entry d s
demo_login-Entry (failed err) s = refl

-- Whoever navigated has a session and went home.
abbrev pub signed_in : Option String → AuthState → Bool
signed_in none s = true
signed_in (some p) s = str_eq p "/" && s.is_authenticated

-- A visitor who navigated is at "/", where the routes show the dashboard.
abbrev pub Arrives : Option String → AuthState → Type 0
Arrives l s = (l ≡ none) ⊎ ((l ≡ some "/") × (render s "/" ≡ page dashboard))

pub arrives_lem :
    (l : Option String) (s : AuthState) → signed_in l s ≡ true → s.has_hydrated ≡ true → Arrives l s
unfolding render protected_route table_get
arrives_lem none s h k = inl refl
arrives_lem (some p) s h k = inr (ap some ((eq_iff p "/").0 (ground arith)), ground arith)
