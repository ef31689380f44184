-- ===== src/Ws/Dispatch.antt =====
-- The listener tables of services/websocket.js: subscribe, subscribeAll, the functions that they
-- return, handleMessage, and the part of disconnect that clears the tables. A callback is a number,
-- and whether it throws when it is called is an argument; callbacks that subscribe or unsubscribe
-- while a message is being delivered are not modelled.
pub mod History
pub mod Delivery
use algorithmic_trading_simu.Prelude.{
  ℕ, Bool, true, false, Option, none, some, String, str_eq, List, [], ◌∷◌, ◌++◌, if◌then◌else◌,
}
use algorithmic_trading_simu.Prelude.Keys.{add, delete}
use algorithmic_trading_simu.Js.{Value, string, get, opt_get, or_else}

pub record Registry : Type 0 where
  pub listeners : List (String × List ℕ)
  pub global_listeners : List ℕ

abbrev pub empty : Registry
empty = record { listeners = []; global_listeners = [] }

-- `listeners.get(type)`.
unfoldable pub lookup : String → List (String × List ℕ) → Option (List ℕ)
lookup t [] = none
lookup t ((u, s) ∷ rest) = if str_eq u t then some s else lookup t rest

-- `listeners.set(type, s)`.
unfoldable pub store : String → List ℕ → List (String × List ℕ) → List (String × List ℕ)
store t s [] = (t, s) ∷ []
store t s ((u, w) ∷ rest) = if str_eq u t then (t, s) ∷ rest else (u, w) ∷ store t s rest

-- `if (!listeners.has(type)) listeners.set(type, new Set())`.
pub ensure : String → List (String × List ℕ) → List (String × List ℕ)
ensure t m = elim (lookup t m) [ none ↦ store t [] m | some s ↦ m ]

-- `listeners.get(type).add(callback)`.
pub add_to : String → ℕ → List (String × List ℕ) → List (String × List ℕ)
add_to t cb m = elim (lookup t m) [ none ↦ m | some s ↦ store t (add cb s) m ]

unfoldable pub subscribe : String → ℕ → Registry → Registry
unfolding ensure add_to
subscribe t cb r = record r { listeners = add_to t cb (ensure t r.listeners) }

-- `listeners.get(type)?.delete(callback)`.
pub delete_from : String → ℕ → List (String × List ℕ) → List (String × List ℕ)
delete_from t cb m = elim (lookup t m) [ none ↦ m | some s ↦ store t (delete cb s) m ]

unfoldable pub unsubscribe : String → ℕ → Registry → Registry
unfolding delete_from
unsubscribe t cb r = record r { listeners = delete_from t cb r.listeners }

unfoldable pub subscribe_all : ℕ → Registry → Registry
subscribe_all cb r = record r { global_listeners = add cb r.global_listeners }

unfoldable pub unsubscribe_all : ℕ → Registry → Registry
unsubscribe_all cb r = record r { global_listeners = delete cb r.global_listeners }

unfoldable pub clear : Registry → Registry
clear r = record { listeners = []; global_listeners = [] }

-- What handling a message does: calls of listeners, and lines on the error console.
pub data Effect : Type 0 where
  call : ℕ → Value → Effect
  global_call : ℕ → Value → Value → Effect
  listener_error global_listener_error : ℕ → Effect
  parse_error : Effect

-- `set.forEach((cb) => { try { cb(payload) } catch (e) { … } })`.
pub call_each : (ℕ → Bool) → Value → List ℕ → List Effect
call_each throws payload [] = []
call_each throws payload (cb ∷ cbs) =
    let rest = call_each throws payload cbs in
    call cb payload ∷ (if throws cb then listener_error cb ∷ rest else rest)

pub global_call_each : (ℕ → Bool) → Value → Value → List ℕ → List Effect
global_call_each throws type payload [] = []
global_call_each throws type payload (cb ∷ cbs) =
    let rest = global_call_each throws type payload cbs in
    global_call cb type payload ∷ (if throws cb then global_listener_error cb ∷ rest else rest)

-- The callbacks for a type. The keys of the table are texts.
abbrev pub callbacks : Value → Registry → List ℕ
callbacks (string t) r = elim (lookup t r.listeners) [ none ↦ [] | some s ↦ s ]
callbacks _ r = []

-- The packet as `JSON.parse` gives it, `none` where that throws. Reading `type` throws on `null`.
unfoldable pub handle_message : (ℕ → Bool) → Option Value → Registry → List Effect
unfolding call_each global_call_each
handle_message throws none r = parse_error ∷ []
handle_message throws (some d) r = elim (get "type" d) [
  | none ↦ parse_error ∷ []
  | some raw_type ↦
      let type = or_else raw_type (string "unknown") in
      let payload = or_else (opt_get "payload" d) (or_else (opt_get "data" d) d) in
      call_each throws payload (callbacks type r)
      ++ global_call_each throws type payload r.global_listeners
]
