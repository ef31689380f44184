-- ===== src/Ws/Backoff.antt =====
-- Reconnecting after a close: when a timer is set, with which delay, and when the engine gives up.
use algorithmic_trading_simu.Prelude.{
  ℕ, suc, ◌*◌, ◌^◌, min, ◌≡◌, false, ◌&&◌, not, [], ◌∷◌, arith, if◌then◌else◌, ltb, ◌||◌, ◌==◌,
}
use algorithmic_trading_simu.Ws.{
  Engine, Decode, reconnect_delay, schedule_reconnect, cleanup, stop_heartbeat, on_close,
  has_valid_token, is_policy_close, set_ready, closed,
}
use algorithmic_trading_simu.Ws.Timers.{Inv, cleanup_lem}

-- The engine as `onclose` finds it.
abbrev pub lost : ℕ → Engine → Engine
lost s e = record e {
  is_connected = false;
  is_connecting = false;
  ready = set_ready s closed e.ready;
}

pub cleanup_keeps :
    (e : Engine) → ((cleanup e).token ≡ e.token) × ((cleanup e).next_handle ≡ e.next_handle)
unfolding cleanup stop_heartbeat
cleanup_keeps e = ground arith

pub has_valid_token-token :
    (decode : Decode) (now : ℕ) (e f : Engine)
    → f.token ≡ e.token
    → has_valid_token decode now f ≡ has_valid_token decode now e
unfolding has_valid_token
has_valid_token-token decode now e f h = rw h

-- What a close leaves pending, on every branch, where the timers keep their invariant: nothing after
-- a policy close or without a valid token, nothing once 20 attempts were made, and otherwise one
-- timer, whose delay is 1000 * 2^attempts milliseconds up to 20 seconds, with the attempt counted.
pub timers-on_close :
    (decode : Decode) (now s code : ℕ) (e : Engine)
    → Inv e
    → let retries =
        not (code == 1008 || code == 4401)
        && (has_valid_token decode now e && ltb e.reconnect_attempts 20) in
      ((on_close decode now s code e).timers ≡ (
        if retries then (e.next_handle, min (1000 * 2 ^ e.reconnect_attempts) 20000) ∷ [] else []))
      × ((on_close decode now s code e).reconnect_attempts
          ≡ (if retries then suc e.reconnect_attempts else e.reconnect_attempts))
unfolding on_close schedule_reconnect reconnect_delay is_policy_close
timers-on_close decode now s code e v = ground (
  arith,
  cleanup_lem (lost s e) v.beats v.one_timer,
  cleanup_keeps (lost s e),
  has_valid_token-token decode now e (cleanup (lost s e)),
)

pub on_close-token :
    (decode : Decode) (now s code : ℕ) (e : Engine)
    → (code == 1008 || code == 4401) ≡ false
    → (on_close decode now s code e).token ≡ e.token
unfolding on_close schedule_reconnect is_policy_close
on_close-token decode now s code e h = ground (arith, cleanup_keeps (lost s e))
