-- ===== src/Ws.antt =====
-- The WebSocket engine, services/websocket.js: the fields of class WebSocketEngine, and the part of
-- the browser that it acts on (its sockets, timers and intervals). An event handler of a socket
-- closes over the engine, not over its socket, so a handler runs with whatever socket the engine
-- holds by then; sockets are therefore numbered, and every event says whose it is.
pub mod Dispatch
pub mod Timers
pub mod Sending
pub mod Backoff
pub mod Closing
pub mod Outage
use algorithmic_trading_simu.Prelude.{
  ℕ, zero, suc, ◌+◌, ◌*◌, ◌^◌, min, Bool, true, false, not, ◌&&◌, ◌||◌, Option, none, some, String,
  List, [], ◌∷◌, ◌++◌, length, if◌then◌else◌, ltb, leb, ◌==◌,
}
use algorithmic_trading_simu.Js.{Value, truthy}

-- What `send` is given: the engine's own two messages, and anything that a client sends.
pub data Message : Type 0 where
  subscribe_market ping : Message
  custom : Value → Message

pub data ReadyState : Type 0 where
  connecting open_state closing closed : ReadyState

pub record Engine : Type 0 where
  -- Fields of the class. A timer field holds a handle also after its timer has fired.
  pub socket : Option ℕ
  pub reconnect_attempts : ℕ
  pub reconnect_timer : Option ℕ
  pub heartbeat_interval : Option ℕ
  pub message_queue : List Message
  pub is_connected : Bool
  pub is_connecting : Bool
  -- The browser: the state of each socket, the frames that were put on the wire, the timers that
  -- have not fired (with their delays) and the intervals that run, and a supply of handles.
  pub ready : ℕ → ReadyState
  pub wire : List (ℕ × Message)
  pub timers : List (ℕ × ℕ)
  pub intervals : List ℕ
  pub next_handle : ℕ
  -- The access token of the auth store.
  pub token : Value

abbrev pub max_reconnect_attempts : ℕ
max_reconnect_attempts = 20

abbrev pub heartbeat_ms : ℕ
heartbeat_ms = 8000

abbrev pub start : Value → Engine
start token = record {
  socket = none;
  reconnect_attempts = 0;
  reconnect_timer = none;
  heartbeat_interval = none;
  message_queue = [];
  is_connected = false;
  is_connecting = false;
  ready = λ _. closed;
  wire = [];
  timers = [];
  intervals = [];
  next_handle = 1;
  token = token;
}

unfoldable pub remove_timer : ℕ → List (ℕ × ℕ) → List (ℕ × ℕ)
remove_timer h [] = []
remove_timer h ((k, d) ∷ ts) = if k == h then ts else (k, d) ∷ remove_timer h ts

unfoldable pub remove_interval : ℕ → List ℕ → List ℕ
remove_interval h [] = []
remove_interval h (k ∷ ks) = if k == h then ks else k ∷ remove_interval h ks

abbrev pub set_ready : ℕ → ReadyState → (ℕ → ReadyState) → ℕ → ReadyState
set_ready s r f k = if k == s then r else f k

-- `socket.send`: a frame leaves an open socket only; on a closing or closed one it is dropped, and
-- on a connecting one `send` throws, which the engine catches.
transmit : ℕ → Message → Engine → Engine
transmit s m e = elim (e.ready s) [ open_state ↦ record e { wire = e.wire ++ (s, m) ∷ [] } | _ ↦ e ]

pub send : Message → Engine → Engine
unfolding transmit
send m e =
    if e.is_connected
    then elim e.socket [ none ↦ e | some s ↦ transmit s m e ]
    else record e { message_queue = e.message_queue ++ m ∷ [] }

-- `while (queue.length > 0) send(queue.shift())`, for at most `fuel` rounds.
pub flush_queue : ℕ → Engine → Engine
flush_queue zero e = e
flush_queue (suc fuel) e = elim e.message_queue [
  | [] ↦ e
  | m ∷ rest ↦ flush_queue fuel (send m (record e { message_queue = rest }))
]

pub stop_heartbeat : Engine → Engine
stop_heartbeat e = elim e.heartbeat_interval [
  | none ↦ e
  | some h ↦ record e { intervals = remove_interval h e.intervals; heartbeat_interval = none }
]

pub start_heartbeat : Engine → Engine
unfolding stop_heartbeat
start_heartbeat e =
    let s = stop_heartbeat e in
    record s {
      intervals = s.intervals ++ s.next_handle ∷ [];
      heartbeat_interval = some s.next_handle;
      next_handle = suc s.next_handle;
    }

pub cleanup : Engine → Engine
unfolding stop_heartbeat
cleanup e =
    let s = stop_heartbeat e in
    elim s.reconnect_timer [
      | none ↦ s
      | some h ↦ record s { timers = remove_timer h s.timers; reconnect_timer = none }
    ]

-- `Math.min(1000 * 2 ** attempts, 20000)`.
pub reconnect_delay : ℕ → ℕ
reconnect_delay attempts = min (1000 * 2 ^ attempts) 20000

pub schedule_reconnect : Engine → Engine
schedule_reconnect e = if leb max_reconnect_attempts e.reconnect_attempts then e else record e {
  reconnect_attempts = suc e.reconnect_attempts;
  timers = e.timers ++ (e.next_handle, reconnect_delay e.reconnect_attempts) ∷ [];
  reconnect_timer = some e.next_handle;
  next_handle = suc e.next_handle;
}

-- The claims of a token as `JSON.parse(atob(token.split(".")[1]))` gives them: `none` where that
-- throws, and otherwise the `exp` field, `none` for one that is absent or falsy.
abbrev pub Decode : Type 0
Decode = Value → Option (Option ℕ)

unfoldable pub is_token_expired : Decode → ℕ → Value → Bool
is_token_expired decode now token =
    if truthy token
    then elim (decode token) [
      | none ↦ true
      | some none ↦ false
      | some (some exp) ↦ leb (exp * 1000) now
    ]
    else true

-- `!token || this.isTokenExpired(token)`, negated.
unfoldable pub has_valid_token : Decode → ℕ → Engine → Bool
unfolding is_token_expired
has_valid_token decode now e = truthy e.token && not (is_token_expired decode now e.token)

pub connect : Decode → ℕ → Engine → Engine
connect decode now e =
    if e.is_connected || e.is_connecting
    then e
    else if has_valid_token decode now e
    then record e {
      is_connecting = true;
      socket = some e.next_handle;
      ready = set_ready e.next_handle connecting e.ready;
      next_handle = suc e.next_handle;
    }
    else e

-- The handlers of a socket. The state of the socket itself is the browser's, and has changed
-- before the handler runs.
pub on_open : ℕ → Engine → Engine
on_open s e =
    let up = record e {
      is_connected = true;
      is_connecting = false;
      reconnect_attempts = 0;
      ready = set_ready s open_state e.ready;
    } in
    send subscribe_market (start_heartbeat (flush_queue (length e.message_queue) up))

is_policy_close : ℕ → Bool
is_policy_close code = code == 1008 || code == 4401

-- `close()` on a socket that is not closed begins the closing; the `close` event comes later.
close_socket : ℕ → Engine → Engine
close_socket s e = elim (e.ready s) [
  | closed ↦ e
  | _ ↦ record e { ready = set_ready s closing e.ready }
]

-- After a policy close the auth store is cleared, and with it the token.
pub on_close : Decode → ℕ → ℕ → ℕ → Engine → Engine
unfolding is_policy_close
on_close decode now s code e =
    let down = cleanup (record e {
      is_connected = false;
      is_connecting = false;
      ready = set_ready s closed e.ready;
    }) in
    if is_policy_close code
    then record down { token = Value.null }
    else if has_valid_token decode now down
    then schedule_reconnect down
    else down

-- `this.socket.close()`, where the engine has a socket.
pub close_held : Engine → Engine
unfolding close_socket
close_held e = elim e.socket [ none ↦ e | some s ↦ close_socket s e ]

-- On an engine without a socket `this.socket.close()` throws out of the handler, and nothing
-- changes.
pub on_error : Engine → Engine
unfolding close_held
on_error e = close_held e

-- `disconnect`, less the two listener tables, which are in Ws/Dispatch.
pub disconnect : Engine → Engine
unfolding close_held
disconnect e = record (close_held (cleanup e)) {
  socket = none;
  is_connected = false;
  is_connecting = false;
}

-- What can happen to the engine: calls of its clients, events of its sockets, and timers. A timer
-- or interval fires only while it is pending.
pub data Event : Type 0 where
  connects disconnects : ℕ → Event
  sends : Message → Event
  opens : ℕ → Event
  closes : ℕ → ℕ → ℕ → Event
  errors : Event
  timer_fires : ℕ → ℕ → Event
  interval_fires : ℕ → Event
  token_changes : Value → Event

timer_pending : ℕ → List (ℕ × ℕ) → Bool
timer_pending h [] = false
timer_pending h ((k, d) ∷ ts) = k == h || timer_pending h ts

interval_runs : ℕ → List ℕ → Bool
interval_runs h [] = false
interval_runs h (k ∷ ks) = k == h || interval_runs h ks

pub step : Decode → Engine → Event → Engine
unfolding timer_pending interval_runs
step decode e (connects now) = connect decode now e
step decode e (disconnects now) = disconnect e
step decode e (sends m) = send m e
step decode e (opens s) = on_open s e
step decode e (closes now s code) = on_close decode now s code e
step decode e errors = on_error e
step decode e (timer_fires now h) =
    if timer_pending h e.timers
    then connect decode now (record e { timers = remove_timer h e.timers })
    else e
step decode e (interval_fires h) = if interval_runs h e.intervals then send ping e else e
step decode e (token_changes v) = record e { token = v }

abbrev pub run : Decode → Engine → List Event → Engine
run decode e [] = e
run decode e (v ∷ vs) = run decode (step decode e v) vs
