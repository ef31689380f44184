-- ===== src/Api/Burst.antt =====
-- What becomes of requests that are refused with 401 together.
use algorithmic_trading_simu.Prelude.{
  ℕ, suc, ◌≡◌, refl, sym, ap, ◌∙◌, true, false, none, some, str_eq, eq_iff, List, [], ◌∷◌, ◌++◌,
  map, append-nil, append_assoc, if◌then◌else◌, arith,
}
use mathlib.Core.Path.{subst}
use algorithmic_trading_simu.Js.{Value, null, truthy, opt_get}
use algorithmic_trading_simu.Auth.{set_auth, clear_auth, Reply, replied}
use algorithmic_trading_simu.Api.{
  Client, Request, status, Event, fails, refresh_replies, Settlement, rejection, auth_error,
  dispatch, settle, get_refresh_promise, is_auth_endpoint, on_failure, resume, abandon, refresh_ok,
  on_refresh_reply, step, run, needs_key,
}
use algorithmic_trading_simu.Api.Message.{Render}
use algorithmic_trading_simu.Api.Refresh.{abandon-Same, freed}

-- The rejected request was not retried, was not sent to an authentication endpoint, and carries an
-- idempotency key if its method wants one, as every request does once it was sent.
abbrev pub CanRetry : Request → Type 0
CanRetry r = (r.retried ≡ false) × (is_auth_endpoint r.url ≡ false) × (needs_key r ≡ false)

abbrev pub AllCanRetry : List Request → Type 0
AllCanRetry [] = Unit {0}
AllCanRetry (r ∷ rs) = CanRetry r × AllCanRetry rs

abbrev pub mark : Request → Request
mark r = record r { retried = true }

-- A 401 for each of some requests.
abbrev pub refused : Value → List Request → List Event
refused d = map (λ r. fails r (status 401 d))

-- The request as it is sent again.
abbrev pub again : Value → Request → Request
again token r = record r { retried = true; authorization = some token }

-- A refused request joins the wait for a promise that is set, and sets it if it is not.
step_refused :
    (k : Render) (d : Value) (r : Request) (c : Client)
    → CanRetry r
    → step k c (fails r (status 401 d))
      ≡ (let p = get_refresh_promise c in record p { waiters = p.waiters ++ mark r ∷ [] })
unfolding step on_failure
step_refused k d r c h = ground arith

refused_waits :
    (k : Render) (d : Value) (rs : List Request) (c : Client)
    → AllCanRetry rs
    → c.refresh_in_flight ≡ true
    → run k c (refused d rs) ≡ record c { waiters = c.waiters ++ map mark rs }
unfolding get_refresh_promise
refused_waits k d [] c h f = ground (arith, append-nil c.waiters)
refused_waits k d (r ∷ rs) c h f =
    let next : Client = record c { waiters = c.waiters ++ mark r ∷ [] } in
    ground (
      arith,
      step_refused k d r c h.0,
      refused_waits k d rs next h.1 f,
      append_assoc c.waiters (mark r ∷ []) (map mark rs),
    )

dispatch-again :
    (token : Value) (r : Request) (c : Client)
    → CanRetry r
    → truthy token ≡ true
    → c.auth.access_token ≡ token
    → dispatch (record (mark r) { authorization = some token }) c
      ≡ record c { wire = c.wire ++ again token r ∷ [] }
unfolding dispatch
dispatch-again token r c h t a = ground arith

resume_lem :
    (token : Value) (rs : List Request) (c : Client)
    → AllCanRetry rs
    → truthy token ≡ true
    → c.auth.access_token ≡ token
    → resume token (map mark rs) c ≡ record c { wire = c.wire ++ map (again token) rs }
unfolding resume
resume_lem token [] c h t a = ground (arith, append-nil c.wire)
resume_lem token (r ∷ rs) c h t a = ground (
  arith,
  dispatch-again token r c h.0 t a,
  resume_lem token rs (record c { wire = c.wire ++ again token r ∷ [] }) h.1 t a,
  append_assoc c.wire (again token r ∷ []) (map (again token) rs),
)

-- A client that waits for nothing.
abbrev pub IsIdle : Client → Type 0
IsIdle c = (c.refresh_in_flight ≡ false) × (c.waiters ≡ []) × (c.unanswered ≡ 0)

-- After a burst of refusals: one call is out, and all of the burst wait for it, in order.
burst_lem :
    (k : Render) (d : Value) (r : Request) (rs : List Request) (c : Client)
    → IsIdle c
    → AllCanRetry (r ∷ rs)
    → run k c (refused d (r ∷ rs)) ≡ record c {
      refresh_in_flight = true;
      waiters = map mark (r ∷ rs);
      refresh_calls = suc c.refresh_calls;
      unanswered = 1;
    }
unfolding get_refresh_promise
burst_lem k d r rs c i h =
    let first : Client = record c {
      refresh_in_flight = true;
      waiters = mark r ∷ [];
      refresh_calls = suc c.refresh_calls;
      unanswered = 1;
    } in
    ground (arith, step_refused k d r c h.0, refused_waits k d rs first h.1 refl)

run-append :
    (k : Render) (xs ys : List Event) (c : Client) → run k c (xs ++ ys) ≡ run k (run k c xs) ys
run-append k [] ys c = refl
run-append k (x ∷ xs) ys c = run-append k xs ys (step k c x)

abbrev pub expired : Request → ℕ × Settlement
expired r = (r.id, rejection auth_error)

abandon_lem :
    (rs : List Request) (c : Client)
    → ((abandon rs c).wire ≡ c.wire) × ((abandon rs c).settled ≡ c.settled ++ map expired rs)
unfolding abandon settle
abandon_lem [] c = (refl, sym (append-nil c.settled))
abandon_lem (r ∷ rs) c =
    let x = rejection auth_error in
    let out = record c {
      auth = clear_auth c.auth;
      location = if str_eq c.location "/login" then c.location else "/login";
    } in
    let (wire, settled) = abandon_lem rs (settle r x out) in
    (wire, settled ∙ append_assoc c.settled (expired r ∷ []) (map expired rs))

-- The store holds no session, and the page is /login.
abbrev pub IsSignedOut : Client → Type 0
IsSignedOut c =
    (c.auth.access_token ≡ null) × (c.auth.is_authenticated ≡ false) × (c.location ≡ "/login")

abandon-IsSignedOut :
    (r : Request) (rs : List Request) (c : Client) → IsSignedOut (abandon (r ∷ rs) c)
unfolding abandon settle clear_auth
abandon-IsSignedOut r [] c = (refl, refl, ground (arith, eq_iff c.location "/login"))
abandon-IsSignedOut r (s ∷ rs) c =
    let out : Client = record c {
      auth = clear_auth c.auth;
      location = if str_eq c.location "/login" then c.location else "/login";
    } in
    abandon-IsSignedOut s rs (settle r (rejection auth_error) out)

-- The client while a burst waits.
abbrev waiting : Request → List Request → Client → Client
waiting r rs c = record c {
  refresh_in_flight = true;
  waiters = map mark (r ∷ rs);
  refresh_calls = suc c.refresh_calls;
  unanswered = 1;
}

burst_then :
    (k : Render) (d : Value) (reply : Reply) (r : Request) (rs : List Request) (c : Client)
    → IsIdle c
    → AllCanRetry (r ∷ rs)
    → run k c (refused d (r ∷ rs) ++ refresh_replies reply ∷ [])
      ≡ on_refresh_reply reply (waiting r rs c)
unfolding step
burst_then k d reply r rs c i h =
    run-append k (refused d (r ∷ rs)) (refresh_replies reply ∷ []) c
    ∙ ap (λ x. step k x (refresh_replies reply)) (burst_lem k d r rs c i h)

refresh_ok_replied :
    (reply token user : Value)
    → opt_get "access_token" reply ≡ token
    → opt_get "user" reply ≡ user
    → truthy token ≡ true
    → truthy user ≡ true
    → refresh_ok (replied reply) ≡ some (token, user)
unfolding refresh_ok
refresh_ok_replied reply token user et eu tt' tu = rw (et, eu, tt', tu)

map-expired : (rs : List Request) → map expired (map mark rs) ≡ map expired rs
map-expired [] = refl
map-expired (r ∷ rs) = ap (expired r ∷◌) (map-expired rs)

-- What a burst comes to when the refresh brought a token.
abbrev pub Refreshed : Value → Request → List Request → Client → Client → Type 0
Refreshed token r rs c f =
    (f.refresh_calls ≡ suc c.refresh_calls)
    × (f.wire ≡ c.wire ++ map (again token) (r ∷ rs))
    × (f.auth.access_token ≡ token)
    × (f.settled ≡ c.settled)
    × IsIdle f

-- What it comes to when the refresh failed.
abbrev pub Expired : Request → List Request → Client → Client → Type 0
Expired r rs c f =
    (f.refresh_calls ≡ suc c.refresh_calls)
    × (f.wire ≡ c.wire)
    × (f.settled ≡ c.settled ++ map expired (r ∷ rs))
    × IsSignedOut f
    × IsIdle f

reply_failed :
    (reply : Reply) (c : Client)
    → refresh_ok reply ≡ none
    → on_refresh_reply reply c ≡ abandon c.waiters (freed c.auth c)
unfolding on_refresh_reply
reply_failed reply c e = rw (e, on_refresh_reply)

reply_ok :
    (reply : Reply) (token user : Value) (c : Client)
    → refresh_ok reply ≡ some (token, user)
    → on_refresh_reply reply c ≡ resume token c.waiters (freed (set_auth token user c.auth) c)
unfolding on_refresh_reply
reply_ok reply token user c e = rw (e, on_refresh_reply)

-- A burst of requests, none of them retried before or sent to an /auth/ endpoint and each with its
-- idempotency key if its method needs one, all refused with 401 while the client is idle, leads to
-- exactly one call of /auth/refresh. When its reply brings a token and a user, every request of the
-- burst is sent again once, in order, with the new token and its old idempotency key, the store
-- holds the new token, no promise is settled yet and the client is idle again.
pub burst-Refreshed :
    (k : Render) (d reply token user : Value) (r : Request) (rs : List Request) (c : Client)
    → IsIdle c
    → AllCanRetry (r ∷ rs)
    → opt_get "access_token" reply ≡ token
    → opt_get "user" reply ≡ user
    → truthy token ≡ true
    → truthy user ≡ true
    → Refreshed token r rs c (run k c (refused d (r ∷ rs) ++ refresh_replies (replied reply) ∷ []))
unfolding set_auth
burst-Refreshed k d reply token user r rs c i h et eu tt' tu =
    let free = freed (set_auth token user c.auth) (waiting r rs c) in
    let good = refresh_ok_replied reply token user et eu tt' tu in
    subst (Refreshed token r rs c)
      (sym (
        burst_then k d (replied reply) r rs c i h
        ∙ reply_ok (replied reply) token user (waiting r rs c) good
        ∙ resume_lem token (r ∷ rs) free h tt' refl))
      (refl, refl, refl, refl, (refl, refl, refl))

-- A burst of requests, none of them retried before or sent to an /auth/ endpoint and each with its
-- idempotency key if its method needs one, is refused with 401 while the client is idle. When the
-- one refresh that this leads to fails, or its reply lacks the token or the user, nothing is sent
-- again: every request of the burst is rejected as expired, in order, the store is signed out, the
-- page is /login and the client is idle again.
pub burst-Expired :
    (k : Render) (d : Value) (reply : Reply) (r : Request) (rs : List Request) (c : Client)
    → IsIdle c
    → AllCanRetry (r ∷ rs)
    → refresh_ok reply ≡ none
    → Expired r rs c (run k c (refused d (r ∷ rs) ++ refresh_replies reply ∷ []))
burst-Expired k d reply r rs c i h bad =
    let rest = map mark (r ∷ rs) in
    let free = freed c.auth (waiting r rs c) in
    let same = abandon-Same rest free in
    let (wire, settled) = abandon_lem rest free in
    subst (Expired r rs c)
      (sym (burst_then k d reply r rs c i h ∙ reply_failed reply (waiting r rs c) bad))
      (
        same.3,
        wire,
        settled ∙ ap (c.settled ++◌) (map-expired (r ∷ rs)),
        abandon-IsSignedOut (mark r) (map mark rs) free,
        (same.1, same.2, same.0),
      )
