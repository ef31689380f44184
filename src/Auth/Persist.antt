-- ===== src/Auth/Persist.antt =====
-- What reaches the browser's storage.
use algorithmic_trading_simu.Prelude.{◌≡◌, refl, Bool, String, List, [], ◌∷◌, map, arith}
use algorithmic_trading_simu.Js.{Value, Fields, undefined, object, lookup, insert, string}
use algorithmic_trading_simu.Js.Spread.{lookup-insert}
use algorithmic_trading_simu.Auth.{
  AuthState, Reply, replied, failed, adopt, hydrate, Event, logins, registers, demo_logins,
  refreshes, logouts, fetches, hydrates, expelled, step, run, partialize, set_auth, silent_refresh,
}

-- The same reply with another access token.
abbrev pub retoken : String → Reply → Reply
retoken t (replied (object fs)) = replied (object (insert "access_token" (string t) fs))
retoken t r = r

-- The same call, whose sign-in reply carries another access token.
abbrev pub retoken_event : String → Event → Event
retoken_event t (logins r) = logins (retoken t r)
retoken_event t (registers r) = registers (retoken t r)
retoken_event t (demo_logins r) = demo_logins (retoken t r)
retoken_event t (refreshes r) = refreshes (retoken t r)
retoken_event t (hydrates b c r) = hydrates b c (retoken t r)
retoken_event t e = e

-- Equal but for the token.
abbrev Alike : AuthState → AuthState → Type 0
Alike s t = (s.user ≡ t.user) × (s.has_hydrated ≡ t.has_hydrated)

lookup_user :
    (t : String) (fs : Fields)
    → lookup "user" (insert "access_token" (string t) fs) ≡ lookup "user" fs
lookup_user t fs = lookup-insert "access_token" "user" (string t) fs

adopt-Alike :
    (tok : String) (fs : Fields) (s t : AuthState)
    → Alike s t
    → Alike (adopt (object fs) s).0 (adopt (object (insert "access_token" (string tok) fs)) t).0
unfolding adopt set_auth
adopt-Alike tok fs s t (u, h) = ground (arith, lookup_user tok fs)

adopt-Alike_same : (d : Value) (s t : AuthState) → Alike s t → Alike (adopt d s).0 (adopt d t).0
unfolding adopt set_auth
adopt-Alike_same undefined s t a = a
adopt-Alike_same d s t a = ground arith

adopt-retoken :
    (tok : String) (r : Reply) (s t : AuthState)
    → Alike s t
    → Alike (step s (logins r)) (step t (logins (retoken tok r)))
unfolding step
adopt-retoken tok (replied (object fs)) s t a = adopt-Alike tok fs s t a
adopt-retoken tok (replied d) s t a = adopt-Alike_same d s t a
adopt-retoken tok (failed e) s t a = a

hydrate-Alike :
    (b k : Bool) (r r' : Reply) (s t : AuthState)
    → Alike s t
    → Alike (silent_refresh r s).0 (silent_refresh r' t).0
    → Alike (hydrate b k r s) (hydrate b k r' t)
unfolding hydrate
hydrate-Alike b k r r' s t a h = ground arith

step-Alike :
    (tok : String) (e : Event) (s t : AuthState)
    → Alike s t
    → Alike (step s e) (step t (retoken_event tok e))
unfolding step hydrate
step-Alike tok (logins r) s t a = adopt-retoken tok r s t a
step-Alike tok (registers (replied d)) s t a = adopt-retoken tok (replied d) s t a
step-Alike tok (registers (failed x)) s t a = a
step-Alike tok (demo_logins (replied d)) s t a = adopt-retoken tok (replied d) s t a
step-Alike tok (demo_logins (failed x)) s t a = a
step-Alike tok (refreshes (replied d)) s t a = adopt-retoken tok (replied d) s t a
step-Alike tok (refreshes (failed x)) s t a = a
step-Alike tok (logouts r) s t a = (refl, a.1)
step-Alike tok (fetches (replied d)) s t a = ground arith
step-Alike tok (fetches (failed x)) s t a = a
step-Alike tok (hydrates b k (replied d)) s t a =
    hydrate-Alike b k (replied d) (retoken tok (replied d)) s t a
      (adopt-retoken tok (replied d) s t a)
step-Alike tok (hydrates b k (failed x)) s t a = ground arith
step-Alike tok expelled s t a = (refl, a.1)

run-Alike :
    (tok : String) (es : List Event) (s t : AuthState)
    → Alike s t
    → Alike (run s es) (run t (map (retoken_event tok) es))
run-Alike tok [] s t a = a
run-Alike tok (e ∷ es) s t a = run-Alike tok es _ _ (step-Alike tok e s t a)

-- What the store persists does not depend on the access tokens: after any sequence of calls from
-- any state, replacing the token of every sign-in reply by another leaves what is written to the
-- browser's storage as it was.
pub partialize-retoken :
    (tok : String) (es : List Event) (s : AuthState)
    → partialize (run s (map (retoken_event tok) es)) ≡ partialize (run s es)
unfolding partialize
partialize-retoken tok es s = ground (arith, run-Alike tok es s s (refl, refl))
