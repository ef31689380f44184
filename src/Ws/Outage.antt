-- ===== src/Ws/Outage.antt =====
-- A server that cannot be reached: the failed connections one after the other, as the events that
-- the browser sends to services/websocket.js, up to where the engine gives up.
use algorithmic_trading_simu.Prelude.{ℕ, suc, some, ◌≡◌, true, false, List, [], ◌∷◌}
use algorithmic_trading_simu.Js.{Value}
use algorithmic_trading_simu.Ws.{Engine, Decode, Event, start, has_valid_token, timer_fires, closes}
use algorithmic_trading_simu.Ws.Timers.{Inv}

-- A run of failures, each given by the times of its close event and of its timer: socket `s`, which
-- `connect` made, closes without having opened, and the timer that the close has set under the next
-- handle fires, so that `connect` makes the socket after that.
abbrev pub outage : ℕ → List (ℕ × ℕ) → List Event
outage s [] = []
outage s ((close, retry) ∷ ts) =
    closes close s 1006 ∷ timer_fires retry (suc s) ∷ outage (suc (suc s)) ts

-- The token is valid at every time of the outage.
abbrev pub Lasts : Decode → Value → List (ℕ × ℕ) → Type 0
Lasts decode token [] = Unit
Lasts decode token ((close, retry) ∷ ts) =
    (has_valid_token decode close (start token) ≡ true)
    × (has_valid_token decode retry (start token) ≡ true)
    × Lasts decode token ts

-- The engine waits for socket `s` to open, after `n` failed attempts.
record Dials (token : Value) (s n : ℕ) (e : Engine) : Type 0 where
  inv : Inv e
  down : e.is_connected ≡ false
  dialling : e.is_connecting ≡ true
  socket : e.socket ≡ some s
  supply : e.next_handle ≡ suc s
  attempts : e.reconnect_attempts ≡ n
  none_pending : e.timers ≡ []
  same_token : e.token ≡ token
