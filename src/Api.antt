-- ===== src/Api.antt =====
-- services/apiClient.js: the request interceptor, the single-flight refresh and the response
-- interceptor, with the store of store/authStore.js. The network is explicit: `wire` holds the
-- requests that were sent, and replies arrive as events in any order. axios itself is not modelled
-- but for what the code relies on: a request that is sent again keeps its settings, `_retried` and
-- its headers among them. The n-th drawn UUID is the number n.
pub mod Message
pub mod Refresh
pub mod Burst
use algorithmic_trading_simu.Prelude.{
  ℕ, zero, suc, ◌+◌, ◌-◌, Bool, true, false, not, ◌&&◌, ◌||◌, Option, none, some, String, str_eq,
  List, [], ◌∷◌, ◌++◌, map, if◌then◌else◌, ◌==◌,
}
use text.Mathlib.Text.{find?}
use algorithmic_trading_simu.Js.{Value, null, truthy, opt_get}
use algorithmic_trading_simu.Auth.{AuthState, set_auth, clear_auth, Reply, replied, failed}
use Message.{Render, api_message}

pub data Method : Type 0 where
  get head options post put patch delete : Method

pub record Request : Type 0 where
  pub id : ℕ
  pub url : String
  pub method : Method
  -- The headers `Authorization` (the token of `Bearer`) and `X-Idempotency-Key`.
  pub authorization : Option Value
  pub idempotency_key : Option ℕ
  -- `_retried`.
  pub retried : Bool

-- What the interceptor rejects with.
pub data Rejection : Type 0 where
  network_error auth_error : Rejection
  api_error : ℕ → Value → Rejection

pub data Settlement : Type 0 where
  success : Value → Settlement
  rejection : Rejection → Settlement

pub record Client : Type 0 where
  pub auth : AuthState
  -- `refreshInFlight` is a promise, and these are the requests that wait on it.
  pub refresh_in_flight : Bool
  pub waiters : List Request
  pub next_uuid : ℕ
  -- `window.location.pathname`.
  pub location : String
  -- Requests sent, calls of `performSilentRefresh` made so far and not yet answered, and settled
  -- promises. A request to /auth/refresh through the client, as `silentRefresh` of
  -- services/authService.js sends it, is a request like any other.
  pub wire : List Request
  pub refresh_calls : ℕ
  pub unanswered : ℕ
  pub settled : List (ℕ × Settlement)

unfoldable pub is_mutating : Method → Bool
is_mutating post = true
is_mutating put = true
is_mutating patch = true
is_mutating delete = true
is_mutating _ = false

-- The request interceptor, on the headers.
pub with_token : Value → Request → Request
with_token token r = if truthy token then record r { authorization = some token } else r

unfoldable pub needs_key : Request → Bool
unfolding is_mutating
needs_key r = is_mutating r.method && elim r.idempotency_key [ none ↦ true | some k ↦ false ]

unfoldable pub dispatch : Request → Client → Client
unfolding with_token needs_key
dispatch r c =
    let s = with_token c.auth.access_token r in
    if needs_key r
    then record c {
      wire = c.wire ++ record s { idempotency_key = some c.next_uuid } ∷ [];
      next_uuid = suc c.next_uuid;
    }
    else record c { wire = c.wire ++ s ∷ [] }

pub settle : Request → Settlement → Client → Client
settle r x c = record c { settled = c.settled ++ (r.id, x) ∷ [] }

-- `getRefreshPromise`: a call of /auth/refresh, unless one is in flight.
pub get_refresh_promise : Client → Client
get_refresh_promise c = if c.refresh_in_flight then c else record c {
  refresh_in_flight = true;
  refresh_calls = suc c.refresh_calls;
  unanswered = suc c.unanswered;
}

-- `(original.url || "").includes("/auth/")`.
unfoldable pub is_auth_endpoint : String → Bool
is_auth_endpoint url = elim (find? url "/auth/") [ none ↦ false | some i ↦ true ]

pub data Failure : Type 0 where
  no_response : Failure
  status : ℕ → Value → Failure

unfoldable pub on_failure : Render → Request → Failure → Client → Client
unfolding settle get_refresh_promise
on_failure k r no_response c = settle r (rejection network_error) c
on_failure k r (status code d) c =
    if code == 401 && (not r.retried && not (is_auth_endpoint r.url))
    then (let p = get_refresh_promise c in
        record p { waiters = p.waiters ++ record r { retried = true } ∷ [] })
    else settle r (rejection (api_error code (api_message k code d))) c

-- After the refresh has succeeded, each waiting request is sent again with the new token.
pub resume : Value → List Request → Client → Client
unfolding dispatch
resume token [] c = c
resume token (r ∷ rs) c = resume token rs (dispatch (record r { authorization = some token }) c)

-- After it has failed, each clears the store, leaves for /login and rejects.
pub abandon : List Request → Client → Client
unfolding settle clear_auth
abandon [] c = c
abandon (r ∷ rs) c = abandon rs (
    settle r (rejection auth_error) (record c {
      auth = clear_auth c.auth;
      location = if str_eq c.location "/login" then c.location else "/login";
    }))

-- The reply of the bare call: `performSilentRefresh` from there on, its `finally`, and the
-- continuations of the waiting requests, which run before any other event.
unfoldable pub refresh_ok : Reply → Option (Value × Value)
refresh_ok (failed e) = none
refresh_ok (replied d) =
    let token = opt_get "access_token" d in
    let user = opt_get "user" d in if truthy token && truthy user then some (token, user) else none

unfoldable pub on_refresh_reply : Reply → Client → Client
unfolding refresh_ok resume abandon set_auth
on_refresh_reply reply c =
    let free = record c {
      refresh_in_flight = false;
      waiters = [];
      unanswered = c.unanswered - 1;
    } in
    elim (refresh_ok reply) [
      | some (token, user) ↦
          resume token c.waiters (record free { auth = set_auth token user c.auth })
      | none ↦ abandon c.waiters free
    ]

pub data Event : Type 0 where
  sends : Request → Event
  succeeds : Request → Value → Event
  fails : Request → Failure → Event
  refresh_replies : Reply → Event

-- A reply to `performSilentRefresh` comes only while a call of it is unanswered.
unfoldable pub step : Render → Client → Event → Client
unfolding dispatch settle on_failure on_refresh_reply
step k c (sends r) = dispatch r c
step k c (succeeds r d) = settle r (success d) c
step k c (fails r f) = on_failure k r f c
step k c (refresh_replies reply) = if c.unanswered == 0 then c else on_refresh_reply reply c

abbrev pub run : Render → Client → List Event → Client
run k c [] = c
run k c (e ∷ es) = run k (step k c e) es

abbrev pub fresh : AuthState → String → Client
fresh auth location = record {
  auth = auth;
  refresh_in_flight = false;
  waiters = [];
  next_uuid = 0;
  location = location;
  wire = [];
  refresh_calls = 0;
  unanswered = 0;
  settled = [];
}
