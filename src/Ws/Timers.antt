-- ===== src/Ws/Timers.antt =====
-- The timers of the engine: at most one heartbeat interval and one reconnect timer at any time.
use algorithmic_trading_simu.Prelude.{
  ℕ, zero, suc, ◌≤◌, ◌≡◌, refl, ◌⊎◌, inl, inr, Bool, true, false, ◌&&◌, Option, none, some, List,
  [], ◌∷◌, arith, ◌^◌, leb, Bool-cases, ◌||◌, length, if◌then◌else◌,
}
use native.Mathlib.Nat.{pow-suc}
use algorithmic_trading_simu.Js.{Value, null}
use algorithmic_trading_simu.Ws.{
  Engine, Message, subscribe_market, ping, start, send, flush_queue, stop_heartbeat,
  start_heartbeat, cleanup, schedule_reconnect, reconnect_delay, connect, on_open, on_close,
  on_error, close_socket, disconnect, Decode, Event, connects, disconnects, sends, opens, closes,
  errors, timer_fires, interval_fires, token_changes, step, run, max_reconnect_attempts, transmit,
  remove_timer, remove_interval, has_valid_token, set_ready, open_state, closed, is_policy_close,
  close_held, timer_pending, interval_runs,
}

abbrev pub option_list {ℓ} : {A : Type ℓ} → Option A → List A
option_list none = []
option_list (some a) = a ∷ []

-- No timer is pending, or the one that the field holds, with a delay within its bounds.
abbrev pub AtMostOne : List (ℕ × ℕ) → Option ℕ → Type 0
AtMostOne [] r = Unit {0}
AtMostOne ((h, d) ∷ []) r = (r ≡ some h) × (1000 ≤ d) × (d ≤ 20000)
AtMostOne (_ ∷ _ ∷ _) r = ⊥

pub record Inv (e : Engine) : Type 0 where
  -- The running intervals are the heartbeat, which beats only on a connected engine.
  pub beats : e.intervals ≡ option_list e.heartbeat_interval
  pub alive : (if e.is_connected then none else e.heartbeat_interval) ≡ none
  pub one_timer : AtMostOne e.timers e.reconnect_timer
  pub attempts : e.reconnect_attempts ≤ max_reconnect_attempts
  -- The engine is not connecting while it is connected.
  pub phase : (e.is_connected && e.is_connecting) ≡ false

-- What the timers of the engine are, for the operations that leave them alone.
abbrev pub Same : Engine → Engine → Type 0
Same e f =
    (f.intervals ≡ e.intervals)
    × (f.heartbeat_interval ≡ e.heartbeat_interval)
    × (f.timers ≡ e.timers)
    × (f.reconnect_timer ≡ e.reconnect_timer)
    × (f.reconnect_attempts ≡ e.reconnect_attempts)
    × (f.is_connected ≡ e.is_connected)
    × (f.is_connecting ≡ e.is_connecting)

transmit-Same : (s : ℕ) (m : Message) (e : Engine) → Same e (transmit s m e)
unfolding transmit
transmit-Same s m e = ground arith

send-Same : (m : Message) (e : Engine) → Same e (send m e)
unfolding send
send-Same m e = ground arith

flush_queue-Same : (fuel : ℕ) (e : Engine) → Same e (flush_queue fuel e)
unfolding flush_queue
flush_queue-Same zero e = ground arith
flush_queue-Same (suc fuel) e = go e.message_queue refl λ f. flush_queue-Same fuel f
  where
    go :
        (q : List Message)
        → e.message_queue ≡ q
        → ((f : Engine) → Same f (flush_queue fuel f))
        → Same e (flush_queue (suc fuel) e)
    go [] eq ih = ground arith
    go (m ∷ rest) eq ih = ground (
      arith,
      ih (send m (record e { message_queue = rest })),
      send-Same m (record e { message_queue = rest }),
    )

Same-Inv : {e f : Engine} → Same e f → Inv e → Inv f
Same-Inv h v = record {
  beats = ground arith;
  alive = ground arith;
  one_timer = rw (h.2, h.3) v.one_timer;
  attempts = ground arith;
  phase = ground arith;
}

AtMostOne-cases :
    (ts : List (ℕ × ℕ)) (r : Option ℕ)
    → AtMostOne ts r
    → (ts ≡ []) ⊎ ((h d : ℕ) × (ts ≡ (h, d) ∷ []) × (r ≡ some h))
AtMostOne-cases [] r v = inl refl
AtMostOne-cases ((h, d) ∷ []) r v = inr (h, d, refl, v.0)
AtMostOne-cases (_ ∷ _ ∷ _) r v = elim v [ ]

-- `cleanup` stops whatever runs, also on an engine that has just lost its connection.
module _ (e : Engine) (beats : e.intervals ≡ option_list e.heartbeat_interval)
    (one_timer : AtMostOne e.timers e.reconnect_timer) where
  pub cleanup_lem :
      ((cleanup e).intervals ≡ [])
      × ((cleanup e).heartbeat_interval ≡ none)
      × ((cleanup e).timers ≡ [])
      × ((cleanup e).reconnect_attempts ≡ e.reconnect_attempts)
      × ((cleanup e).is_connected ≡ e.is_connected)
      × ((cleanup e).is_connecting ≡ e.is_connecting)
  unfolding cleanup remove_timer remove_interval
  cleanup_lem = ground (arith, AtMostOne-cases e.timers e.reconnect_timer one_timer)

  cleanup-Inv :
      e.reconnect_attempts ≤ max_reconnect_attempts
      → (e.is_connected && e.is_connecting) ≡ false
      → Inv (cleanup e)
  cleanup-Inv attempts phase =
      let (i, h, ts, a, c, k) = cleanup_lem in
      record {
        beats = rw (i, h);
        alive = ground arith;
        one_timer = rw ts tt;
        attempts = rw a attempts;
        phase = rw (c, k) phase;
      }

pow_pos : (n : ℕ) → 1 ≤ 2 ^ n
pow_pos zero = omega arith
pow_pos (suc n) = omega (arith, pow_pos n, pow-suc 2 n)

pub reconnect_delay_bounds : (n : ℕ) → (1000 ≤ reconnect_delay n) × (reconnect_delay n ≤ 20000)
unfolding reconnect_delay
reconnect_delay_bounds n = omega (arith, pow_pos n)

schedule_reconnect-Inv : (e : Engine) → Inv e → e.timers ≡ [] → Inv (schedule_reconnect e)
unfolding schedule_reconnect
schedule_reconnect-Inv e v h = elim (Bool-cases (leb max_reconnect_attempts e.reconnect_attempts)) [
  | inl full ↦ rw (full, schedule_reconnect) v
  | inr more ↦ record {
    beats = rw (more, schedule_reconnect) v.beats;
    alive = rw (more, schedule_reconnect) v.alive;
    one_timer =
        rw (more, schedule_reconnect, h)
          (let (lo, hi) = reconnect_delay_bounds e.reconnect_attempts in (refl, lo, hi));
    attempts = rw (more, schedule_reconnect) (ground arith);
    phase = rw (more, schedule_reconnect) v.phase;
  }
]

remove_timer-AtMostOne :
    (h : ℕ) (ts : List (ℕ × ℕ)) (r : Option ℕ) → AtMostOne ts r → AtMostOne (remove_timer h ts) r
unfolding remove_timer
remove_timer-AtMostOne h [] r v = tt
remove_timer-AtMostOne h ((k, d) ∷ []) r v = ground arith
remove_timer-AtMostOne h (_ ∷ _ ∷ _) r v = elim v [ ]

pub connect-Inv : (decode : Decode) (now : ℕ) (e : Engine) → Inv e → Inv (connect decode now e)
unfolding connect
connect-Inv decode now e v = elim (Bool-cases (e.is_connected || e.is_connecting)) [
  | inl busy ↦ rw (busy, connect) v
  | inr idle ↦ elim (Bool-cases (has_valid_token decode now e)) [
    | inl valid ↦
        rw (idle, valid, connect)
          (record {
            beats = v.beats;
            alive = v.alive;
            one_timer = v.one_timer;
            attempts = v.attempts;
            phase = ground arith;
          })
    | inr bad ↦ rw (idle, bad, connect) v
  ]
]

start_heartbeat-Inv : (e : Engine) → Inv e → e.is_connected ≡ true → Inv (start_heartbeat e)
unfolding start_heartbeat stop_heartbeat remove_interval
start_heartbeat-Inv e v c = ground arith

on_open-Inv : (s : ℕ) (e : Engine) → Inv e → Inv (on_open s e)
unfolding on_open
on_open-Inv s e v = Same-Inv (send-Same subscribe_market _) (
    start_heartbeat-Inv _ (Same-Inv (flush_queue-Same _ up) up-Inv)
      (ground (arith, flush_queue-Same (length e.message_queue) up)))
  where
    up : Engine
    up = record e {
      is_connected = true;
      is_connecting = false;
      reconnect_attempts = 0;
      ready = set_ready s open_state e.ready;
    }

    up-Inv : Inv up
    up-Inv = record {
      beats = v.beats;
      alive = ground arith;
      one_timer = v.one_timer;
      attempts = omega arith;
      phase = refl;
    }

close_socket-Same : (s : ℕ) (e : Engine) → Same e (close_socket s e)
unfolding close_socket
close_socket-Same s e = ground arith

pub close_held-Same : (e : Engine) → Same e (close_held e)
unfolding close_held
close_held-Same e = ground arith

on_error-Inv : (e : Engine) → Inv e → Inv (on_error e)
unfolding on_error
on_error-Inv e v = Same-Inv (close_held-Same e) v

-- Where the timers were just cleaned up.
close_tail :
    (policy valid : Bool) (d : Engine)
    → Inv d
    → d.timers ≡ []
    → Inv (if policy then record d { token = null } else if valid then schedule_reconnect d else d)
close_tail true valid d v h = record {
  beats = v.beats;
  alive = v.alive;
  one_timer = v.one_timer;
  attempts = v.attempts;
  phase = v.phase;
}
close_tail false true d v h = schedule_reconnect-Inv d v h
close_tail false false d v h = v

pub on_close-Inv :
    (decode : Decode) (now s code : ℕ) (e : Engine) → Inv e → Inv (on_close decode now s code e)
unfolding on_close
on_close-Inv decode now s code e v =
    close_tail (is_policy_close code) _ (cleanup lost)
      (cleanup-Inv lost v.beats v.one_timer v.attempts refl)
      (cleanup_lem lost v.beats v.one_timer).2
  where
    lost : Engine
    lost = record e {
      is_connected = false;
      is_connecting = false;
      ready = set_ready s closed e.ready;
    }

pub disconnect-Inv : (e : Engine) → Inv e → Inv (disconnect e)
unfolding disconnect
disconnect-Inv e v = record {
  beats = w.beats;
  alive = ground (arith, cleanup_lem e v.beats v.one_timer, close_held-Same (cleanup e));
  one_timer = w.one_timer;
  attempts = w.attempts;
  phase = refl;
}
  where
    w : Inv (close_held (cleanup e))
    w =
        Same-Inv (close_held-Same (cleanup e))
          (cleanup-Inv e v.beats v.one_timer v.attempts v.phase)

pub step-Inv : (decode : Decode) (e : Engine) (event : Event) → Inv e → Inv (step decode e event)
unfolding step
step-Inv decode e (connects now) v = connect-Inv decode now e v
step-Inv decode e (disconnects now) v = disconnect-Inv e v
step-Inv decode e (sends m) v = Same-Inv (send-Same m e) v
step-Inv decode e (opens s) v = on_open-Inv s e v
step-Inv decode e (closes now s code) v = on_close-Inv decode now s code e v
step-Inv decode e errors v = on_error-Inv e v
step-Inv decode e (timer_fires now h) v = elim (Bool-cases (timer_pending h e.timers)) [
  | inl due ↦
      rw (due, step)
        (connect-Inv decode now _ (record {
          beats = v.beats;
          alive = v.alive;
          one_timer = remove_timer-AtMostOne h e.timers e.reconnect_timer v.one_timer;
          attempts = v.attempts;
          phase = v.phase;
        }))
  | inr gone ↦ rw (gone, step) v
]
step-Inv decode e (interval_fires h) v = elim (Bool-cases (interval_runs h e.intervals)) [
  | inl due ↦ rw (due, step) (Same-Inv (send-Same ping e) v)
  | inr gone ↦ rw (gone, step) v
]
step-Inv decode e (token_changes t) v = record {
  beats = v.beats;
  alive = v.alive;
  one_timer = v.one_timer;
  attempts = v.attempts;
  phase = v.phase;
}

pub start-Inv : (token : Value) → Inv (start token)
start-Inv token = record {
  beats = refl;
  alive = refl;
  one_timer = tt;
  attempts = omega arith;
  phase = refl;
}

-- Whatever calls, socket events and timers come, in any order and for any token decoder: the
-- engine has at most one heartbeat interval, which is the one its field holds and which runs only
-- while it is connected, at most one pending reconnect timer, which is the one its field holds and
-- whose delay is between 1 and 20 seconds, at most 20 attempts, and is never connected and
-- connecting at once.
pub run-Inv :
    (decode : Decode) (token : Value) (events : List Event) → Inv (run decode (start token) events)
run-Inv decode token events = go events (start token) (start-Inv token)
  where
    go : (events : List Event) (e : Engine) → Inv e → Inv (run decode e events)
    go [] e v = v
    go (x ∷ xs) e v = go xs (step decode e x) (step-Inv decode e x v)
