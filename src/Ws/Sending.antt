-- ===== src/Ws/Sending.antt =====
-- Sending: messages wait in a queue while the engine is offline and leave in order on `onopen`.
use algorithmic_trading_simu.Prelude.{
  ℕ, ◌≡◌, refl, true, false, some, List, [], ◌∷◌, ◌++◌, map, length, append_assoc, append-nil,
  arith,
}
use mathlib.Core.List.{map-append}
use algorithmic_trading_simu.Ws.{
  Engine, Message, subscribe_market, open_state, send, flush_queue, on_open, set_ready,
  start_heartbeat, stop_heartbeat, Decode, Event, sends, opens, step, run,
}

-- The frames of some messages on one socket.
abbrev pub on_socket : ℕ → List Message → List (ℕ × Message)
on_socket s = map (λ m. (s, m))

-- The engine sends on the open socket `s`.
abbrev Online : ℕ → Engine → Type 0
Online s e = (e.socket ≡ some s) × (e.ready s ≡ open_state) × (e.is_connected ≡ true)

-- Where only the queue and the wire differ.
abbrev pub Sent : Engine → List Message → List (ℕ × Message) → Engine → Type 0
Sent e queue wire f =
    (f.message_queue ≡ queue)
    × (f.wire ≡ wire)
    × (f.socket ≡ e.socket)
    × (f.ready ≡ e.ready)
    × (f.is_connected ≡ e.is_connected)
    × (f.reconnect_attempts ≡ e.reconnect_attempts)

send-Online :
    (s : ℕ) (m : Message) (e : Engine)
    → Online s e
    → Sent e e.message_queue (e.wire ++ (s, m) ∷ []) (send m e)
unfolding send
send-Online s m e o = ground arith

pub send_offline :
    (m : Message) (e : Engine)
    → e.is_connected ≡ false
    → Sent e (e.message_queue ++ m ∷ []) e.wire (send m e)
unfolding send
send_offline m e o = ground arith

flush_queue-Online :
    (s : ℕ) (queue : List Message) (e : Engine)
    → e.message_queue ≡ queue
    → Online s e
    → Sent e [] (e.wire ++ on_socket s queue) (flush_queue (length queue) e)
unfolding flush_queue
flush_queue-Online s [] e q o = ground (arith, append-nil e.wire)
flush_queue-Online s (m ∷ queue) e q o = ground (
  arith,
  send-Online s m (record e { message_queue = queue }),
  flush_queue-Online s queue (send m (record e { message_queue = queue })),
  append_assoc e.wire ((s, m) ∷ []) (on_socket s queue),
)

start_heartbeat_quiet : (e : Engine) → Sent e e.message_queue e.wire (start_heartbeat e)
unfolding start_heartbeat stop_heartbeat
start_heartbeat_quiet e = ground arith

on_open_delivers :
    (s : ℕ) (e : Engine)
    → e.socket ≡ some s
    → let f = on_open s e in
      (f.wire ≡ e.wire ++ on_socket s (e.message_queue ++ subscribe_market ∷ []))
      × (f.message_queue ≡ [])
      × (f.is_connected ≡ true)
      × (f.reconnect_attempts ≡ 0)
unfolding on_open
on_open_delivers s e h =
    let flushed = flush_queue (length e.message_queue) up in
    ground (
      arith,
      flush_queue-Online s e.message_queue up refl (h, set_ready_self, refl),
      start_heartbeat_quiet flushed,
      send-Online s subscribe_market (start_heartbeat flushed),
      map-append {B = ℕ × Message} (λ m. (s, m)) e.message_queue (subscribe_market ∷ []),
      append_assoc e.wire (on_socket s e.message_queue) ((s, subscribe_market) ∷ []),
    )
  where
    up : Engine
    up = record e {
      is_connected = true;
      is_connecting = false;
      reconnect_attempts = 0;
      ready = set_ready s open_state e.ready;
    }

    set_ready_self : set_ready s open_state e.ready s ≡ open_state
    set_ready_self = ground arith

abbrev pub send_all : List Message → List Event
send_all = map sends

sends_offline :
    (decode : Decode) (ms : List Message) (e : Engine)
    → e.is_connected ≡ false
    → Sent e (e.message_queue ++ ms) e.wire (run decode e (send_all ms))
unfolding step
sends_offline decode [] e o = ground (arith, append-nil e.message_queue)
sends_offline decode (m ∷ ms) e o = ground (
  arith,
  send_offline m e o,
  sends_offline decode ms (send m e),
  append_assoc e.message_queue (m ∷ []) ms,
)

run-append :
    (decode : Decode) (xs ys : List Event) (e : Engine)
    → run decode e (xs ++ ys) ≡ run decode (run decode e xs) ys
run-append decode [] ys e = refl
run-append decode (x ∷ xs) ys e = run-append decode xs ys (step decode e x)

-- Messages sent while the engine is offline are not lost and keep their order: when its socket
-- opens, the wire gets first the messages that waited already, then those sent meanwhile, then the
-- engine's market subscription, all on that socket; the queue is empty, the engine is connected and
-- its count of attempts is back to 0.
pub on_open-send_all :
    (decode : Decode) (s : ℕ) (ms : List Message) (e : Engine)
    → e.is_connected ≡ false
    → e.socket ≡ some s
    → let f = run decode e (send_all ms ++ opens s ∷ []) in
      (f.wire ≡ e.wire ++ on_socket s ((e.message_queue ++ ms) ++ subscribe_market ∷ []))
      × (f.message_queue ≡ [])
      × (f.is_connected ≡ true)
      × (f.reconnect_attempts ≡ 0)
unfolding step
on_open-send_all decode s ms e o h =
    rw (run-append decode (send_all ms) (opens s ∷ []) e)
      (ground (arith, sends_offline decode ms e o, on_open_delivers s (run decode e (send_all ms))))
