-- ===== src/Auth.antt =====
-- The session: store/authStore.js, services/authService.js and hooks/useAuthHydration.js. The
-- Zustand store is a record, `set` a shallow merge into it. A call of the service takes the reply
-- of the server as an argument: the data of a 2xx reply, or the error that apiClient rejects with.
pub mod Session
pub mod Persist
use algorithmic_trading_simu.Prelude.{
  Bool, true, false, Option, none, some, String, List, [], ◌∷◌, if◌then◌else◌,
}
use algorithmic_trading_simu.Js.{Value, undefined, null, object, truthy, get, spread, fields_of}

pub record AuthState : Type 0 where
  pub access_token : Value
  pub user : Value
  pub is_authenticated : Bool
  pub has_hydrated : Bool

abbrev pub initial_state : AuthState
initial_state = record {
  access_token = null;
  user = null;
  is_authenticated = false;
  has_hydrated = false;
}

unfoldable pub set_auth : Value → Value → AuthState → AuthState
set_auth token user s = record s { access_token = token; user = user; is_authenticated = true }

unfoldable pub clear_auth : AuthState → AuthState
clear_auth s = record s { access_token = null; user = null; is_authenticated = false }

unfoldable pub set_hydrated : Bool → AuthState → AuthState
set_hydrated value s = record s { has_hydrated = value }

unfoldable pub update_user : Value → AuthState → AuthState
update_user patch s = record s {
  user = if truthy s.user then object (spread (fields_of s.user) (fields_of patch)) else s.user;
}

-- What the `persist` middleware writes to the browser's storage.
pub record Persisted : Type 0 where
  pub user : Value

unfoldable pub partialize : AuthState → Persisted
partialize s = record { user = s.user }

-- `getAccessToken`.
unfoldable pub get_access_token : AuthState → Value
get_access_token s = s.access_token

-- `reply.failed err` is a rejected call. A read of a property of `undefined` or `null` throws
-- inside the service function, which then rejects with that TypeError.
pub data Reply : Type 0 where
  replied : Value → Reply
  failed : Value → Reply

pub data Outcome : Type 0 where
  resolved : Value → Outcome
  rejected : Value → Outcome
  type_error : Outcome

-- `useAuthStore.getState().setAuth({ accessToken: data.access_token, user: data.user })` and
-- `return data`.
unfoldable pub adopt : Value → AuthState → AuthState × Outcome
adopt d s = elim (get "access_token" d) [
  | none ↦ (s, type_error)
  | some token ↦ elim (get "user" d) [
    | none ↦ (s, type_error)
    | some user ↦ (set_auth token user s, resolved d)
  ]
]

unfoldable pub login : Reply → AuthState → AuthState × Outcome
unfolding adopt set_auth
login (replied d) s = adopt d s
login (failed e) s = (s, rejected e)

unfoldable pub register : Reply → AuthState → AuthState × Outcome
unfolding adopt set_auth
register (replied d) s = adopt d s
register (failed e) s = (s, rejected e)

unfoldable pub demo_login : Reply → AuthState → AuthState × Outcome
unfolding adopt set_auth
demo_login (replied d) s = adopt d s
demo_login (failed e) s = (s, rejected e)

unfoldable pub silent_refresh : Reply → AuthState → AuthState × Outcome
unfolding adopt set_auth
silent_refresh (replied d) s = adopt d s
silent_refresh (failed e) s = (s, rejected e)

-- The error of a failed revoke is swallowed, and the local state is cleared either way.
unfoldable pub logout : Reply → AuthState → AuthState × Outcome
unfolding clear_auth
logout r s = (clear_auth s, resolved undefined)

unfoldable pub fetch_me : Reply → AuthState → AuthState × Outcome
unfolding update_user
fetch_me (replied d) s = (update_user d s, resolved d)
fetch_me (failed e) s = (s, rejected e)

unfoldable pub fetch_ws_token : Reply → AuthState → AuthState × Outcome
fetch_ws_token (replied d) s = (s, resolved d)
fetch_ws_token (failed e) s = (s, rejected e)

unfoldable pub change_password : Reply → AuthState → AuthState × Outcome
change_password (replied d) s = (s, resolved d)
change_password (failed e) s = (s, rejected e)

-- The effect of useAuthHydration when the reply of /auth/refresh comes: `was_hydrated` is
-- `hasHydrated` as it was when the effect started, which then sent no request, and `cancelled` says
-- whether the effect has been cleaned up meanwhile. The store may have changed since the start.
unfoldable pub hydrate : Bool → Bool → Reply → AuthState → AuthState
unfolding silent_refresh set_hydrated
hydrate was_hydrated cancelled r s =
    let after = (silent_refresh r s).0 in
    if was_hydrated then s else if cancelled then after else set_hydrated true after

-- Everything that writes the store, in the order in which the replies arrive. `expelled` is a
-- `clearAuth` from outside: the WebSocket engine's policy close, or a failed refresh in apiClient.
pub data Event : Type 0 where
  logins registers demo_logins refreshes logouts fetches : Reply → Event
  hydrates : Bool → Bool → Reply → Event
  expelled : Event

unfoldable pub step : AuthState → Event → AuthState
unfolding login register demo_login silent_refresh logout fetch_me hydrate clear_auth
step s (logins r) = (login r s).0
step s (registers r) = (register r s).0
step s (demo_logins r) = (demo_login r s).0
step s (refreshes r) = (silent_refresh r s).0
step s (logouts r) = (logout r s).0
step s (fetches r) = (fetch_me r s).0
step s (hydrates was_hydrated cancelled r) = hydrate was_hydrated cancelled r s
step s expelled = clear_auth s

abbrev pub run : AuthState → List Event → AuthState
run s [] = s
run s (e ∷ es) = run (step s e) es
