-- ===== src/Api/Refresh.antt =====
-- The single-flight refresh: how many calls of /auth/refresh are out, and who waits for them.
use algorithmic_trading_simu.Prelude.{
  ◌≡◌, refl, Bool, true, false, not, ◌&&◌, some, String, List, [], ◌∷◌, ◌++◌, if◌then◌else◌, ◌==◌,
  arith, Bool-cases, Option-cases, ◌-◌, inl, inr,
}
use algorithmic_trading_simu.Js.{Value}
use algorithmic_trading_simu.Auth.{AuthState, set_auth, Reply}
use algorithmic_trading_simu.Api.{
  Client, Request, Failure, no_response, status, Event, sends, succeeds, fails, refresh_replies,
  Settlement, rejection, success, network_error, api_error, dispatch, settle, get_refresh_promise,
  is_auth_endpoint, on_failure, resume, abandon, refresh_ok, on_refresh_reply, step, run, fresh,
}
use algorithmic_trading_simu.Api.Message.{Render, api_message}

abbrev AllRetried : List Request → Type 0
AllRetried [] = Unit {0}
AllRetried (r ∷ rs) = (r.retried ≡ true) × AllRetried rs

AllRetried-append : (xs ys : List Request) → AllRetried xs → AllRetried ys → AllRetried (xs ++ ys)
AllRetried-append [] ys h k = k
AllRetried-append (x ∷ xs) ys h k = (h.0, AllRetried-append xs ys h.1 k)

pub record SingleFlight (c : Client) : Type 0 where
  -- One call of `performSilentRefresh` is unanswered while the promise is set, and none otherwise.
  pub single : c.unanswered ≡ (if c.refresh_in_flight then 1 else 0)
  -- Nobody waits for a promise that is not there.
  pub awaited : (if c.refresh_in_flight then [] else c.waiters) ≡ []
  -- A waiting request is marked, so that it will not wait a second time.
  pub marked : AllRetried c.waiters

-- What the rest of the client leaves alone.
abbrev Same : Client → Client → Type 0
Same c d =
    (d.unanswered ≡ c.unanswered)
    × (d.refresh_in_flight ≡ c.refresh_in_flight)
    × (d.waiters ≡ c.waiters)
    × (d.refresh_calls ≡ c.refresh_calls)

Same-SingleFlight : {c d : Client} → Same c d → SingleFlight c → SingleFlight d
Same-SingleFlight h v = record {
  single = ground arith;
  awaited = ground (arith, v.awaited);
  marked = rw (h.2) v.marked;
}

dispatch-Same : (r : Request) (c : Client) → Same c (dispatch r c)
unfolding dispatch
dispatch-Same r c = ground arith

settle-Same : (r : Request) (x : Settlement) (c : Client) → Same c (settle r x c)
unfolding settle
settle-Same r x c = (refl, refl, refl, refl)

resume-Same : (token : Value) (rs : List Request) (c : Client) → Same c (resume token rs c)
unfolding resume
resume-Same token [] c = (refl, refl, refl, refl)
resume-Same token (r ∷ rs) c =
    let s : Request = record r { authorization = some token } in
    ground (arith, dispatch-Same s c, resume-Same token rs (dispatch s c))

pub abandon-Same : (rs : List Request) (c : Client) → Same c (abandon rs c)
unfolding abandon settle
abandon-Same [] c = (refl, refl, refl, refl)
abandon-Same (r ∷ rs) c = abandon-Same rs _

-- The client when the promise has just settled.
abbrev pub freed : AuthState → Client → Client
freed auth c = record c {
  auth = auth;
  refresh_in_flight = false;
  waiters = [];
  unanswered = c.unanswered - 1;
}

freed-SingleFlight :
    (auth : AuthState) (c : Client) → c.unanswered ≡ 1 → SingleFlight (freed auth c)
freed-SingleFlight auth c one = record { single = omega arith; awaited = refl; marked = tt }

choose-SingleFlight :
    (b : Bool) {c d : Client} → SingleFlight c → SingleFlight d → SingleFlight (if b then c else d)
choose-SingleFlight true v w = v
choose-SingleFlight false v w = w

on_refresh_reply-SingleFlight :
    (reply : Reply) (c : Client) → c.unanswered ≡ 1 → SingleFlight (on_refresh_reply reply c)
unfolding on_refresh_reply
on_refresh_reply-SingleFlight reply c one = elim (Option-cases (refresh_ok reply)) [
  | inl bad ↦
      rw (bad, on_refresh_reply)
        (Same-SingleFlight (abandon-Same c.waiters (freed c.auth c))
          (freed-SingleFlight c.auth c one))
  | inr (pair, good) ↦
      let auth = set_auth pair.0 pair.1 c.auth in
      rw (good, on_refresh_reply)
        (Same-SingleFlight (resume-Same pair.0 c.waiters (freed auth c))
          (freed-SingleFlight auth c one))
]

get_refresh_promise-SingleFlight :
    (c : Client) (r : Request)
    → SingleFlight c
    → let p = get_refresh_promise c in
      SingleFlight (record p { waiters = p.waiters ++ record r { retried = true } ∷ [] })
unfolding get_refresh_promise
get_refresh_promise-SingleFlight c r v = elim (Bool-cases c.refresh_in_flight) [
  | inl flying ↦
      rw (flying, get_refresh_promise)
        (record {
          single = ground (arith, v.single);
          awaited = refl;
          marked = AllRetried-append c.waiters _ v.marked (refl, tt);
        })
  | inr idle ↦
      rw (idle, get_refresh_promise)
        (record {
          single = ground (arith, v.single);
          awaited = refl;
          marked = AllRetried-append c.waiters _ v.marked (refl, tt);
        })
]

on_failure-SingleFlight :
    (k : Render) (r : Request) (f : Failure) (c : Client)
    → SingleFlight c
    → SingleFlight (on_failure k r f c)
unfolding on_failure
on_failure-SingleFlight k r no_response c v =
    Same-SingleFlight (settle-Same r (rejection network_error) c) v
on_failure-SingleFlight k r (status code d) c v =
    let x = rejection (api_error code (api_message k code d)) in
    choose-SingleFlight (code == 401 && (not r.retried && not (is_auth_endpoint r.url)))
      (get_refresh_promise-SingleFlight c r v)
      (Same-SingleFlight {d = settle r x c} (settle-Same r x c) v)

step-SingleFlight :
    (k : Render) (c : Client) (e : Event) → SingleFlight c → SingleFlight (step k c e)
unfolding step
step-SingleFlight k c (sends r) v = Same-SingleFlight (dispatch-Same r c) v
step-SingleFlight k c (succeeds r d) v = Same-SingleFlight (settle-Same r (success d) c) v
step-SingleFlight k c (fails r f) v = on_failure-SingleFlight k r f c v
step-SingleFlight k c (refresh_replies reply) v = elim (Bool-cases (c.unanswered == 0)) [
  | inl none_out ↦ rw (none_out, step) v
  | inr out ↦ rw (out, step) (on_refresh_reply-SingleFlight reply c (ground (arith, v.single)))
]

-- Whatever requests are sent, and however and in whatever order they and the refreshes are
-- answered: at most one of the calls of /auth/refresh that a 401 led to (`performSilentRefresh`) is
-- unanswered, exactly while the shared promise is set; no request waits without it; and every
-- waiting request is marked as retried. A request to /auth/refresh that is sent through the client,
-- as `silentRefresh` does, is not among those calls.
pub run-SingleFlight :
    (k : Render) (auth : AuthState) (location : String) (events : List Event)
    → SingleFlight (run k (fresh auth location) events)
run-SingleFlight k auth location events =
    go events (fresh auth location) (record { single = refl; awaited = refl; marked = tt })
  where
    go : (events : List Event) (c : Client) → SingleFlight c → SingleFlight (run k c events)
    go [] c v = v
    go (e ∷ es) c v = go es (step k c e) (step-SingleFlight k c e v)
