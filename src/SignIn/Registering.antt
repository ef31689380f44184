-- ===== src/SignIn/Registering.antt =====
-- Registration: what is sent, and where a visitor ends.
use algorithmic_trading_simu.Prelude.{
  ◌≡◌, refl, Bool, true, false, ◌&&◌, none, String, List, [], ◌∷◌, ◌++◌, if◌then◌else◌, leb, ◌==◌,
  arith, Bool-cases, inl, inr,
}
use algorithmic_trading_simu.Js.{Value, string}
use algorithmic_trading_simu.Auth.{
  AuthState, Reply, Outcome, resolved, rejected, type_error, register,
}
use algorithmic_trading_simu.SignIn.Arrival.{Entry, register-Entry, signed_in, Arrives, arrives_lem}
use algorithmic_trading_simu.SignIn.{
  RegisterForm, text_length, handle_submit, click_create, finish_register,
}

-- What the visitor and the server do.
pub data Event : Type 0 where
  set_username set_password set_confirm : String → Event
  set_agree : Bool → Event
  clicks : Event
  answers : Reply → Event

-- A reply comes only while a call is unanswered.
unfoldable pub step : (String → String) → Value → RegisterForm → Event → RegisterForm
unfolding click_create finish_register register
step trim thrown f (set_username s) = record f { username = s }
step trim thrown f (set_password s) = record f { password = s }
step trim thrown f (set_confirm s) = record f { confirm = s }
step trim thrown f (set_agree b) = record f { agree = b }
step trim thrown f clicks = click_create trim f
step trim thrown f (answers r) =
    if f.unanswered == 0 then f else finish_register thrown (register r f.auth) f

abbrev pub run : (String → String) → Value → RegisterForm → List Event → RegisterForm
run trim thrown f [] = f
run trim thrown f (e ∷ es) = run trim thrown (step trim thrown f e) es

-- Passwords of 8 characters or more.
abbrev pub all_long : List (String × String) → Bool
all_long [] = true
all_long ((name, pw) ∷ rest) = leb 8 (text_length pw) && all_long rest

pub record Inv (f : RegisterForm) : Type 0 where
  -- One call is unanswered while the form is loading, and none otherwise.
  pub single : f.unanswered ≡ (if f.loading then 1 else 0)
  pub long : all_long f.sent ≡ true
  pub entered : signed_in f.location f.auth ≡ true
  pub ready : f.auth.has_hydrated ≡ true

all_long-append :
    (xs : List (String × String)) (name pw : String)
    → all_long xs ≡ true
    → leb 8 (text_length pw) ≡ true
    → all_long (xs ++ (name, pw) ∷ []) ≡ true
all_long-append [] name pw h l = ground arith
all_long-append ((n, p) ∷ xs) name pw h l = ground (arith, all_long-append xs name pw)

click_create-Inv : (trim : String → String) (f : RegisterForm) → Inv f → Inv (click_create trim f)
unfolding click_create handle_submit
click_create-Inv trim f v = record {
  single = ground (arith, v.single);
  long = ground (arith, v.long, all_long-append f.sent (trim f.username) f.password v.long);
  entered = ground (arith, v.entered);
  ready = ground (arith, v.ready);
}

finish_register-Inv :
    (thrown : Value) (o : AuthState × Outcome) (f : RegisterForm)
    → Entry f.auth o
    → (f.unanswered == 0) ≡ false
    → Inv f
    → Inv (finish_register thrown o f)
unfolding finish_register
finish_register-Inv thrown (after, resolved d) f e u v = record {
  single = ground (arith, v.single);
  long = v.long;
  entered = ground (arith, e);
  ready = ground (arith, e, v.ready);
}
finish_register-Inv thrown (after, rejected err) f e u v = record {
  single = ground (arith, v.single);
  long = v.long;
  entered = rw (e) v.entered;
  ready = rw (e) v.ready;
}
finish_register-Inv thrown (after, type_error) f e u v = record {
  single = ground (arith, v.single);
  long = v.long;
  entered = rw (e) v.entered;
  ready = rw (e) v.ready;
}

step-Inv :
    (trim : String → String) (thrown : Value) (f : RegisterForm) (e : Event)
    → Inv f
    → Inv (step trim thrown f e)
unfolding step
step-Inv trim thrown f (set_username s) v = record {
  single = v.single;
  long = v.long;
  entered = v.entered;
  ready = v.ready;
}
step-Inv trim thrown f (set_password s) v = record {
  single = v.single;
  long = v.long;
  entered = v.entered;
  ready = v.ready;
}
step-Inv trim thrown f (set_confirm s) v = record {
  single = v.single;
  long = v.long;
  entered = v.entered;
  ready = v.ready;
}
step-Inv trim thrown f (set_agree b) v = record {
  single = v.single;
  long = v.long;
  entered = v.entered;
  ready = v.ready;
}
step-Inv trim thrown f clicks v = click_create-Inv trim f v
step-Inv trim thrown f (answers r) v = elim (Bool-cases (f.unanswered == 0)) [
  | inl out ↦ rw (out, step) v
  | inr due ↦
      rw (due, step)
        (finish_register-Inv thrown (register r f.auth) f (register-Entry r f.auth) due v)
]

-- The page as it opens.
abbrev pub blank : AuthState → RegisterForm
blank s = record {
  username = "";
  password = "";
  confirm = "";
  agree = false;
  error = string "";
  loading = false;
  auth = s;
  location = none;
  sent = [];
  unanswered = 0;
}

run-Inv :
    (trim : String → String) (thrown : Value) (es : List Event) (f : RegisterForm)
    → Inv f
    → Inv (run trim thrown f es)
run-Inv trim thrown [] f v = v
run-Inv trim thrown (e ∷ es) f v =
    run-Inv trim thrown es (step trim thrown f e) (step-Inv trim thrown f e v)

-- Whatever a visitor enters in the registration form over a hydrated store, and however the server
-- answers: at most one registration is unanswered, exactly while the form is loading; every password
-- sent has at least 8 characters; and the visitor either stays or is sent to "/", where the routes
-- then show the dashboard.
pub run-registered :
    (trim : String → String) (thrown : Value) (s : AuthState) (es : List Event)
    → s.has_hydrated ≡ true
    → let f = run trim thrown (blank s) es in
      (f.unanswered ≡ (if f.loading then 1 else 0))
      × (all_long f.sent ≡ true)
      × Arrives f.location f.auth
run-registered trim thrown s es h =
    let f = run trim thrown (blank s) es in
    let v =
      run-Inv trim thrown es (blank s)
        (record { single = refl; long = refl; entered = refl; ready = h }) in
    (v.single, v.long, arrives_lem f.location f.auth v.entered v.ready)
