-- ===== src/Auth/Session.antt =====
-- What a session keeps over any sequence of store writes.
use algorithmic_trading_simu.Prelude.{◌≡◌, refl, true, false, Bool, List, [], ◌∷◌, ◌++◌, arith}
use algorithmic_trading_simu.Js.{Value, undefined, null, object, truthy, lookup}
use algorithmic_trading_simu.Auth.{
  AuthState, initial_state, Reply, replied, failed, adopt, hydrate, Event, logins, registers,
  demo_logins, refreshes, logouts, fetches, hydrates, expelled, step, run, set_auth,
}

-- The data of a reply of a sign-in endpoint: an object with a truthy token, null or undefined. A
-- text, number, Boolean or array has no `access_token`, and is adopted as a session without a token.
abbrev pub HasToken : Value → Type 0
HasToken (object fs) = truthy (lookup "access_token" fs) ≡ true
HasToken undefined = Unit {0}
HasToken null = Unit {0}
HasToken _ = ⊥

abbrev pub Issues : Reply → Type 0
Issues (replied d) = HasToken d
Issues (failed e) = Unit {0}

-- Every successful sign-in reply of the event is such.
abbrev pub Honest : Event → Type 0
Honest (logins r) = Issues r
Honest (registers r) = Issues r
Honest (demo_logins r) = Issues r
Honest (refreshes r) = Issues r
Honest (hydrates b c r) = Issues r
Honest _ = Unit {0}

abbrev pub AllHonest : List Event → Type 0
AllHonest [] = Unit {0}
AllHonest (e ∷ es) = Honest e × AllHonest es

-- The flag says whether there is a token.
abbrev pub IsCoherent : AuthState → Type 0
IsCoherent s = s.is_authenticated ≡ truthy s.access_token

adopt-IsCoherent :
    (d : Value) (s : AuthState) → HasToken d → IsCoherent s → IsCoherent (adopt d s).0
unfolding adopt set_auth
adopt-IsCoherent (object fs) s h c = ground arith
adopt-IsCoherent undefined s h c = c
adopt-IsCoherent null s h c = c
adopt-IsCoherent _ s h c = elim h [ ]

step-IsCoherent : (s : AuthState) (e : Event) → Honest e → IsCoherent s → IsCoherent (step s e)
unfolding step hydrate
step-IsCoherent s (logins (replied d)) h c = adopt-IsCoherent d s h c
step-IsCoherent s (logins (failed x)) h c = c
step-IsCoherent s (registers (replied d)) h c = adopt-IsCoherent d s h c
step-IsCoherent s (registers (failed x)) h c = c
step-IsCoherent s (demo_logins (replied d)) h c = adopt-IsCoherent d s h c
step-IsCoherent s (demo_logins (failed x)) h c = c
step-IsCoherent s (refreshes (replied d)) h c = adopt-IsCoherent d s h c
step-IsCoherent s (refreshes (failed x)) h c = c
step-IsCoherent s (logouts r) h c = refl
step-IsCoherent s (fetches (replied d)) h c = c
step-IsCoherent s (fetches (failed x)) h c = c
step-IsCoherent s (hydrates b k (replied d)) h c = ground (arith, adopt-IsCoherent d s h c)
step-IsCoherent s (hydrates b k (failed x)) h c = ground arith
step-IsCoherent s expelled h c = refl

adopt-has_hydrated :
    (d : Value) (s : AuthState) → s.has_hydrated ≡ true → (adopt d s).0.has_hydrated ≡ true
unfolding adopt set_auth
adopt-has_hydrated undefined s h = h
adopt-has_hydrated d s h = h

-- From the initial state, whatever calls are made and whatever they answer, the store says that
-- the user is authenticated exactly when it holds a truthy access token, provided that the data of
-- every successful reply of login, register, demo login and refresh is an object with a truthy
-- access token, or is null or undefined.
pub run-IsCoherent : (es : List Event) → AllHonest es → IsCoherent (run initial_state es)
run-IsCoherent es h = go es initial_state h refl
  where
    go : (es : List Event) (s : AuthState) → AllHonest es → IsCoherent s → IsCoherent (run s es)
    go [] s h c = c
    go (e ∷ es) s h c = go es (step s e) h.1 (step-IsCoherent s e h.0 c)

step-has_hydrated :
    (s : AuthState) (e : Event) → s.has_hydrated ≡ true → (step s e).has_hydrated ≡ true
unfolding step hydrate
step-has_hydrated s (logins (replied d)) h = adopt-has_hydrated d s h
step-has_hydrated s (logins (failed x)) h = h
step-has_hydrated s (registers (replied d)) h = adopt-has_hydrated d s h
step-has_hydrated s (registers (failed x)) h = h
step-has_hydrated s (demo_logins (replied d)) h = adopt-has_hydrated d s h
step-has_hydrated s (demo_logins (failed x)) h = h
step-has_hydrated s (refreshes (replied d)) h = adopt-has_hydrated d s h
step-has_hydrated s (refreshes (failed x)) h = h
step-has_hydrated s (logouts r) h = h
step-has_hydrated s (fetches (replied d)) h = h
step-has_hydrated s (fetches (failed x)) h = h
step-has_hydrated s (hydrates b k r) h = ground arith
step-has_hydrated s expelled h = h

run-has_hydrated :
    (es : List Event) (s : AuthState) → s.has_hydrated ≡ true → (run s es).has_hydrated ≡ true
run-has_hydrated [] s h = h
run-has_hydrated (e ∷ es) s h = run-has_hydrated es (step s e) (step-has_hydrated s e h)

run-hydrates :
    (r : Reply) (during after : List Event) (s : AuthState)
    → (run s (during ++ hydrates false false r ∷ after)).has_hydrated ≡ true
unfolding step hydrate
run-hydrates r [] after s = run-has_hydrated after _ refl
run-hydrates r (e ∷ during) after s = run-hydrates r during after (step s e)

run-hydrates_was :
    (b : Bool) (r : Reply) (during after : List Event) (s : AuthState)
    → s.has_hydrated ≡ b
    → (run s (during ++ hydrates b false r ∷ after)).has_hydrated ≡ true
run-hydrates_was true r during after s h =
    run-has_hydrated (during ++ hydrates true false r ∷ after) s h
run-hydrates_was false r during after s h = run-hydrates r during after s

-- Once the effect of useAuthHydration has run to its end without being cleaned up, whatever
-- /auth/refresh answered and whatever was written between its start and its end, the store is
-- hydrated and stays so under every later call.
pub run-hydrated :
    (r : Reply) (before during after : List Event) (s : AuthState)
    → let was_hydrated = (run s before).has_hydrated in
      (run s (before ++ (during ++ hydrates was_hydrated false r ∷ after))).has_hydrated ≡ true
run-hydrated r [] during after s = run-hydrates_was s.has_hydrated r during after s refl
run-hydrated r (e ∷ before) during after s = run-hydrated r before during after (step s e)
