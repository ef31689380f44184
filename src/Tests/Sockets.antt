-- ===== src/Tests/Sockets.antt =====
-- The engine at concrete sockets and times.
use algorithmic_trading_simu.Prelude.{
  ◌*◌, ◌^◌, min, ◌≡◌, ◌≢◌, refl, true, none, some, List, [], ◌∷◌, ◌++◌, if◌then◌else◌, ◌==◌, arith,
}
use algorithmic_trading_simu.Js.{Value, Fields, string, number, nan, object, end, field, lookup}
use algorithmic_trading_simu.Ws.{
  Engine, ping, custom, subscribe_market, open_state, start, Decode, Event, connects, disconnects,
  opens, closes, timer_fires, interval_fires, run, on_close, has_valid_token, is_token_expired,
}
use algorithmic_trading_simu.Ws.Timers.{Inv, run-Inv}
use algorithmic_trading_simu.Ws.Sending.{on_socket, send_all, on_open-send_all}
use algorithmic_trading_simu.Ws.Backoff.{timers-on_close}
use algorithmic_trading_simu.Ws.Closing.{disconnect_reconnects}
use algorithmic_trading_simu.Ws.Dispatch.{handle_message}
use algorithmic_trading_simu.Ws.Dispatch.History.{
  Op, subscribes, unsubscribes, subscribes_all, after, listens, listens_all,
}
use algorithmic_trading_simu.Ws.Dispatch.Delivery.{calls, global_calls, calls-handle_message}

-- Every token is valid until second 2000.
abbrev decode : Decode
decode v = some (some 2000)

abbrev token : Value
token = string "t1"

-- An engine that is connected on socket 1, with its heartbeat at handle 2.
abbrev online : Engine
online = record (start token) {
  socket = some 1;
  is_connected = true;
  heartbeat_interval = some 2;
  intervals = 2 ∷ [];
  ready = λ s. open_state;
  next_handle = 3;
}

online-Inv : Inv online
online-Inv = record {
  beats = refl;
  alive = refl;
  one_timer = tt;
  attempts = omega arith;
  phase = refl;
}

abbrev session : List Event
session = connects 5 ∷ opens 1 ∷ interval_fires 2 ∷ closes 7 1 1006 ∷ timer_fires 9 3 ∷ []

run-Inv_example : Inv (run decode (start token) session)
run-Inv_example = run-Inv decode token session

-- An engine that waits for its socket 1 to open, with a message in its queue.
abbrev dialling : Engine
dialling = record (start token) {
  socket = some 1;
  is_connecting = true;
  message_queue = ping ∷ [];
  next_handle = 2;
}

on_open-send_all_example :
    let f = run decode dialling (send_all (custom token ∷ []) ++ opens 1 ∷ []) in
    (f.wire
      ≡ dialling.wire
        ++ on_socket 1 ((dialling.message_queue ++ custom token ∷ []) ++ subscribe_market ∷ []))
    × (f.message_queue ≡ [])
    × (f.is_connected ≡ true)
    × (f.reconnect_attempts ≡ 0)
on_open-send_all_example = on_open-send_all decode 1 (custom token ∷ []) dialling refl refl

timers-on_close_example :
    ((on_close decode 7 1 1006 online).timers ≡ (3, min (1000 * 2 ^ 0) 20000) ∷ [])
    × ((on_close decode 7 1 1006 online).reconnect_attempts ≡ 1)
unfolding has_valid_token is_token_expired
timers-on_close_example = timers-on_close decode 7 1 1006 online online-Inv

disconnect_reconnects_example :
    let f = run decode online (disconnects 5 ∷ closes 5 1 1000 ∷ timer_fires 5 3 ∷ []) in
    (f.is_connecting ≡ true) × (f.socket ≢ none)
unfolding has_valid_token is_token_expired
disconnect_reconnects_example =
    disconnect_reconnects decode 5 1 1000 online online-Inv refl refl refl (omega arith)

abbrev packet : Fields
packet = field "type" (string "tick") (field "payload" (number nan) end)

abbrev history : List Op
history = subscribes_all 7 ∷ unsubscribes "tick" 8 ∷ subscribes "tick" 7 ∷ subscribes "tick" 8 ∷ []

calls-handle_message_example :
    let effects = handle_message (λ c. c == 8) (some (object packet)) (after history) in
    (calls 7 effects ≡ (if listens "tick" 7 history then 1 else 0))
    × (global_calls 7 effects ≡ (if listens_all 7 history then 1 else 0))
unfolding lookup
calls-handle_message_example = calls-handle_message (λ c. c == 8) "tick" 7 packet history refl refl
