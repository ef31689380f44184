-- ===== src/SignIn/LoggingIn.antt =====
-- The two ways to sign in on the login page, which may run at once.
use algorithmic_trading_simu.Prelude.{
  ◌-◌, ◌≡◌, refl, true, false, none, String, List, [], ◌∷◌, if◌then◌else◌, ◌==◌, arith, Bool-cases,
  inl, inr,
}
use algorithmic_trading_simu.Js.{Value, string}
use algorithmic_trading_simu.Auth.{
  AuthState, Reply, Outcome, resolved, rejected, type_error, login, demo_login,
}
use algorithmic_trading_simu.SignIn.{
  LoginForm, handle_login, handle_demo, settle_login, finish_login, finish_demo,
}
use algorithmic_trading_simu.SignIn.Arrival.{
  Entry, login-Entry, demo_login-Entry, signed_in, Arrives, arrives_lem,
}

pub data Event : Type 0 where
  set_username set_password : String → Event
  submits demos : Event
  login_answers demo_answers : Reply → Event

-- A reply comes only while a call of its kind is unanswered.
unfoldable pub step : (String → String) → Value → LoginForm → Event → LoginForm
unfolding handle_login handle_demo finish_login finish_demo
step trim thrown f (set_username s) = record f { username = s }
step trim thrown f (set_password s) = record f { password = s }
step trim thrown f submits = handle_login trim f
step trim thrown f demos = handle_demo f
step trim thrown f (login_answers r) = if f.unanswered == 0 then f else finish_login thrown r f
step trim thrown f (demo_answers r) = if f.demo_unanswered == 0 then f else finish_demo thrown r f

abbrev pub run : (String → String) → Value → LoginForm → List Event → LoginForm
run trim thrown f [] = f
run trim thrown f (e ∷ es) = run trim thrown (step trim thrown f e) es

pub record Inv (f : LoginForm) : Type 0 where
  -- A call of each kind is unanswered while its flag is set, and none otherwise.
  pub single : f.unanswered ≡ (if f.loading then 1 else 0)
  pub single_demo : f.demo_unanswered ≡ (if f.demo_loading then 1 else 0)
  pub entered : signed_in f.location f.auth ≡ true
  pub ready : f.auth.has_hydrated ≡ true

handle_login-Inv : (trim : String → String) (f : LoginForm) → Inv f → Inv (handle_login trim f)
unfolding handle_login
handle_login-Inv trim f v = record {
  single = ground (arith, v.single);
  single_demo = ground (arith, v.single_demo);
  entered = ground (arith, v.entered);
  ready = ground (arith, v.ready);
}

handle_demo-Inv : (f : LoginForm) → Inv f → Inv (handle_demo f)
unfolding handle_demo
handle_demo-Inv f v = record {
  single = ground (arith, v.single);
  single_demo = ground (arith, v.single_demo);
  entered = ground (arith, v.entered);
  ready = ground (arith, v.ready);
}

settle_login-Inv :
    (thrown : Value) (default : String) (o : AuthState × Outcome) (f : LoginForm)
    → Entry f.auth o
    → Inv f
    → Inv (settle_login thrown default o f)
unfolding settle_login
settle_login-Inv thrown default (after, resolved d) f e v = record {
  single = v.single;
  single_demo = v.single_demo;
  entered = ground (arith, e);
  ready = ground (arith, e, v.ready);
}
settle_login-Inv thrown default (after, rejected err) f e v = record {
  single = v.single;
  single_demo = v.single_demo;
  entered = rw (e) v.entered;
  ready = rw (e) v.ready;
}
settle_login-Inv thrown default (after, type_error) f e v = record {
  single = v.single;
  single_demo = v.single_demo;
  entered = rw (e) v.entered;
  ready = rw (e) v.ready;
}

finish_login-Inv :
    (thrown : Value) (r : Reply) (f : LoginForm)
    → (f.unanswered == 0) ≡ false
    → Inv f
    → Inv (finish_login thrown r f)
unfolding finish_login
finish_login-Inv thrown r f due v =
    settle_login-Inv thrown "Invalid credentials" (login r f.auth)
      (record f { loading = false; unanswered = f.unanswered - 1 }) (login-Entry r f.auth)
      (record {
        single = ground (arith, v.single);
        single_demo = v.single_demo;
        entered = v.entered;
        ready = v.ready;
      })

finish_demo-Inv :
    (thrown : Value) (r : Reply) (f : LoginForm)
    → (f.demo_unanswered == 0) ≡ false
    → Inv f
    → Inv (finish_demo thrown r f)
unfolding finish_demo
finish_demo-Inv thrown r f due v =
    settle_login-Inv thrown "Demo unavailable. Try again." (demo_login r f.auth)
      (record f { demo_loading = false; demo_unanswered = f.demo_unanswered - 1 })
      (demo_login-Entry r f.auth)
      (record {
        single = v.single;
        single_demo = ground (arith, v.single_demo);
        entered = v.entered;
        ready = v.ready;
      })

step-Inv :
    (trim : String → String) (thrown : Value) (f : LoginForm) (e : Event)
    → Inv f
    → Inv (step trim thrown f e)
unfolding step
step-Inv trim thrown f (set_username s) v = record {
  single = v.single;
  single_demo = v.single_demo;
  entered = v.entered;
  ready = v.ready;
}
step-Inv trim thrown f (set_password s) v = record {
  single = v.single;
  single_demo = v.single_demo;
  entered = v.entered;
  ready = v.ready;
}
step-Inv trim thrown f submits v = handle_login-Inv trim f v
step-Inv trim thrown f demos v = handle_demo-Inv f v
step-Inv trim thrown f (login_answers r) v = elim (Bool-cases (f.unanswered == 0)) [
  | inl out ↦ rw (out, step) v
  | inr due ↦ rw (due, step) (finish_login-Inv thrown r f due v)
]
step-Inv trim thrown f (demo_answers r) v = elim (Bool-cases (f.demo_unanswered == 0)) [
  | inl out ↦ rw (out, step) v
  | inr due ↦ rw (due, step) (finish_demo-Inv thrown r f due v)
]

-- The page as it opens.
abbrev pub blank : AuthState → LoginForm
blank s = record {
  username = "";
  password = "";
  error = string "";
  loading = false;
  demo_loading = false;
  auth = s;
  location = none;
  sent = [];
  unanswered = 0;
  demo_unanswered = 0;
}

run-Inv :
    (trim : String → String) (thrown : Value) (es : List Event) (f : LoginForm)
    → Inv f
    → Inv (run trim thrown f es)
run-Inv trim thrown [] f v = v
run-Inv trim thrown (e ∷ es) f v =
    run-Inv trim thrown es (step trim thrown f e) (step-Inv trim thrown f e v)

-- Whatever a visitor does on the login page over a hydrated store, and however the server answers, in
-- any order: at most one call of each way to sign in is unanswered, exactly while its flag is set;
-- and the visitor either stays or is sent to "/", where the routes then show the dashboard.
pub run-logged_in :
    (trim : String → String) (thrown : Value) (s : AuthState) (es : List Event)
    → s.has_hydrated ≡ true
    → let f = run trim thrown (blank s) es in
      (f.unanswered ≡ (if f.loading then 1 else 0))
      × (f.demo_unanswered ≡ (if f.demo_loading then 1 else 0))
      × Arrives f.location f.auth
run-logged_in trim thrown s es h =
    let f = run trim thrown (blank s) es in
    let v =
      run-Inv trim thrown es (blank s)
        (record { single = refl; single_demo = refl; entered = refl; ready = h }) in
    (v.single, v.single_demo, arrives_lem f.location f.auth v.entered v.ready)
