-- ===== src/Ws/Closing.antt =====
-- Closing a connection: the server's policy close, `disconnect`, and close events that come late.
use algorithmic_trading_simu.Prelude.{
  ℕ, ◌*◌, ◌^◌, ◌<◌, min, ◌≡◌, refl, ◌≢◌, Bool, true, false, none, some, List, [], ◌∷◌, ◌++◌, arith,
  ◌||◌, ◌==◌, ◌∙◌, ap,
}
use algorithmic_trading_simu.Js.{null}
use algorithmic_trading_simu.Ws.{
  Engine, Decode, Event, connects, timer_fires, interval_fires, closes, disconnects, Message, sends,
  errors, open_state, schedule_reconnect, cleanup, stop_heartbeat, on_close, connect,
  has_valid_token, set_ready, closed, step, run, close_held, close_socket, disconnect, send,
  timer_pending, remove_timer,
}
use algorithmic_trading_simu.Ws.Timers.{Inv, disconnect-Inv, cleanup_lem}
use algorithmic_trading_simu.Ws.Sending.{send_offline}
use algorithmic_trading_simu.Ws.Backoff.{
  timers-on_close, has_valid_token-token, lost, on_close-token,
}

disconnect_keeps :
    (e : Engine)
    → ((disconnect e).token ≡ e.token)
      × ((disconnect e).reconnect_attempts ≡ e.reconnect_attempts)
      × ((disconnect e).next_handle ≡ e.next_handle)
unfolding disconnect close_held close_socket cleanup stop_heartbeat
disconnect_keeps e = ground arith

pub on_close_offline :
    (decode : Decode) (now s code : ℕ) (e : Engine)
    → ((on_close decode now s code e).is_connected ≡ false)
      × ((on_close decode now s code e).is_connecting ≡ false)
unfolding on_close schedule_reconnect cleanup stop_heartbeat
on_close_offline decode now s code e = ground arith

-- A due timer on an idle engine with a valid token opens a connection.
timer_fires_connects :
    (decode : Decode) (now d h : ℕ) (e : Engine)
    → e.timers ≡ (h, d) ∷ []
    → e.is_connected ≡ false
    → e.is_connecting ≡ false
    → has_valid_token decode now e ≡ true
    → let f = step decode e (timer_fires now h) in
      (f.is_connecting ≡ true) × (f.socket ≡ some e.next_handle)
unfolding step connect timer_pending
timer_fires_connects decode now d h e one a b valid =
    ground (
      arith,
      has_valid_token-token decode now e (record e { timers = remove_timer h e.timers }) refl,
    )

-- `disconnect` does not stop the engine: the close event of its socket arrives later, and unless
-- it is a policy close, `onclose` finds a valid token and sets a reconnect timer, as long as fewer
-- than 20 attempts were made. The timer opens a new connection.
pub disconnect_reconnects :
    (decode : Decode) (now s code : ℕ) (e : Engine)
    → Inv e
    → e.socket ≡ some s
    → (code == 1008 || code == 4401) ≡ false
    → has_valid_token decode now e ≡ true
    → e.reconnect_attempts < 20
    → let f =
        run decode e (disconnects now ∷ closes now s code ∷ timer_fires now e.next_handle ∷ []) in
      (f.is_connecting ≡ true) × (f.socket ≢ none)
unfolding step
disconnect_reconnects decode now s code e v held policy valid few =
    let off = disconnect e in
    let c = on_close decode now s code off in
    let (token, attempts, handle) = disconnect_keeps e in
    let (quiet, idle) = on_close_offline decode now s code off in
    let due = timers-on_close decode now s code off (disconnect-Inv e v) in
    let still = has_valid_token-token decode now e off token in
    let (up, held') =
      timer_fires_connects decode now (min (1000 * 2 ^ off.reconnect_attempts) 20000) e.next_handle
        c (ground (arith, due, still, handle, attempts)) quiet idle
        (has_valid_token-token decode now e c (on_close-token decode now s code off policy ∙ token)
          ∙ valid) in
    (up, λ n. cc held')

-- The engine has no token and nothing pending.
abbrev pub IsDown : Engine → Type 0
IsDown e =
    (e.token ≡ null)
    × (e.timers ≡ [])
    × (e.heartbeat_interval ≡ none)
    × (e.is_connected ≡ false)
    × (e.is_connecting ≡ false)

-- The calls that clients make, and the timers.
abbrev pub is_local : Event → Bool
is_local (connects now) = true
is_local (disconnects now) = true
is_local (sends m) = true
is_local (timer_fires now h) = true
is_local (interval_fires h) = true
is_local errors = true
is_local _ = false

abbrev pub AllLocal : List Event → Type 0
AllLocal [] = Unit {0}
AllLocal (e ∷ es) = (is_local e ≡ true) × AllLocal es

-- What `onclose` does to the queue, the wire and the sockets: it only records that one is closed.
on_close_quiet :
    (decode : Decode) (now s code : ℕ) (e : Engine)
    → ((on_close decode now s code e).message_queue ≡ e.message_queue)
      × ((on_close decode now s code e).wire ≡ e.wire)
      × ((on_close decode now s code e).socket ≡ e.socket)
      × ((on_close decode now s code e).ready ≡ set_ready s closed e.ready)
unfolding on_close schedule_reconnect cleanup stop_heartbeat
on_close_quiet decode now s code e = ground arith

on_close_intervals :
    (decode : Decode) (now s code : ℕ) (e : Engine)
    → Inv e
    → (on_close decode now s code e).intervals ≡ []
unfolding on_close schedule_reconnect
on_close_intervals decode now s code e v =
    ground (arith, cleanup_lem (lost s e) v.beats v.one_timer)

-- A close event belongs to no socket in particular. When the event of an older socket `k` comes
-- after the engine has connected on another one, `s`, the engine counts as disconnected and its
-- heartbeat is stopped, although `s` is open and still the engine's: what is sent next waits in
-- the queue and is not put on the wire.
stale_close :
    (decode : Decode) (now k s code : ℕ) (m : Message) (e : Engine)
    → Inv e
    → e.socket ≡ some s
    → e.ready s ≡ open_state
    → e.is_connected ≡ true
    → k ≢ s
    → let f = on_close decode now k code e in
      (f.ready s ≡ open_state)
      × (f.socket ≡ some s)
      × (f.is_connected ≡ false)
      × (f.intervals ≡ [])
      × ((send m f).wire ≡ e.wire)
      × ((send m f).message_queue ≡ e.message_queue ++ m ∷ [])
stale_close decode now k s code m e v held up on other =
    let f = on_close decode now k code e in
    let (queue, wire, socket, ready) = on_close_quiet decode now k code e in
    let (off, _) = on_close_offline decode now k code e in
    let sent = send_offline m f off in
    (
      rw ready (ground arith),
      socket ∙ held,
      off,
      on_close_intervals decode now k code e v,
      sent.1 ∙ wire,
      sent.0 ∙ ap (λ q. q ++ m ∷ []) queue,
    )
