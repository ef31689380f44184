-- ===== src/Ws/Dispatch/Delivery.antt =====
-- What a packet calls, against the history of subscriptions.
use algorithmic_trading_simu.Prelude.{
  ℕ, suc, ◌+◌, ◌≡◌, refl, ap, ◌∙◌, Bool, some, String, str_eq, List, [], ◌∷◌, ◌++◌, true, false,
  if◌then◌else◌, arith, ◌==◌,
}
use algorithmic_trading_simu.Prelude.Keys.{has, is_set}
use algorithmic_trading_simu.Js.{Value, Fields, string, object, lookup as lookup_field}
use algorithmic_trading_simu.Ws.Dispatch.{
  Effect, call, global_call, listener_error, global_listener_error, parse_error, call_each,
  global_call_each, handle_message,
}
use algorithmic_trading_simu.Ws.Dispatch.History.{
  Op, after, listens, listens_all, after-Agrees, after-AgreesAll,
}

-- How often a message calls the callback `c` as one of its type, and as one of every packet.
abbrev pub calls : ℕ → List Effect → ℕ
calls c [] = 0
calls c (call d p ∷ es) = if d == c then suc (calls c es) else calls c es
calls c (_ ∷ es) = calls c es

abbrev pub global_calls : ℕ → List Effect → ℕ
global_calls c [] = 0
global_calls c (global_call d t p ∷ es) =
    if d == c then suc (global_calls c es) else global_calls c es
global_calls c (_ ∷ es) = global_calls c es

calls-append : (c : ℕ) (xs ys : List Effect) → calls c (xs ++ ys) ≡ calls c xs + calls c ys
calls-append c [] ys = omega arith
calls-append c (call d p ∷ xs) ys = ground (arith, calls-append c xs ys)
calls-append c (global_call d t p ∷ xs) ys = calls-append c xs ys
calls-append c (listener_error d ∷ xs) ys = calls-append c xs ys
calls-append c (global_listener_error d ∷ xs) ys = calls-append c xs ys
calls-append c (parse_error ∷ xs) ys = calls-append c xs ys

calls-call_each :
    (c : ℕ) (throws : ℕ → Bool) (p : Value) (s : List ℕ)
    → is_set s ≡ true
    → calls c (call_each throws p s) ≡ (if has c s then 1 else 0)
unfolding call_each is_set has
calls-call_each c throws p [] u = refl
calls-call_each c throws p (d ∷ s) u = ground (arith, calls-call_each c throws p s)

calls-global_call_each :
    (c : ℕ) (throws : ℕ → Bool) (t p : Value) (s : List ℕ)
    → calls c (global_call_each throws t p s) ≡ 0
unfolding global_call_each
calls-global_call_each c throws t p [] = refl
calls-global_call_each c throws t p (d ∷ s) = ground (arith, calls-global_call_each c throws t p s)

calls_both :
    (c : ℕ) (throws : ℕ → Bool) (t p : Value) (s g : List ℕ)
    → is_set s ≡ true
    → calls c (call_each throws p s ++ global_call_each throws t p g) ≡ (if has c s then 1 else 0)
calls_both c throws t p s g u =
    calls-append c (call_each throws p s) (global_call_each throws t p g)
    ∙ omega (arith, calls-call_each c throws p s u, calls-global_call_each c throws t p g)

global_calls-append :
    (c : ℕ) (xs ys : List Effect)
    → global_calls c (xs ++ ys) ≡ global_calls c xs + global_calls c ys
global_calls-append c [] ys = omega arith
global_calls-append c (call d p ∷ xs) ys = global_calls-append c xs ys
global_calls-append c (global_call d t p ∷ xs) ys = ground (arith, global_calls-append c xs ys)
global_calls-append c (listener_error d ∷ xs) ys = global_calls-append c xs ys
global_calls-append c (global_listener_error d ∷ xs) ys = global_calls-append c xs ys
global_calls-append c (parse_error ∷ xs) ys = global_calls-append c xs ys

global_calls-call_each :
    (c : ℕ) (throws : ℕ → Bool) (p : Value) (s : List ℕ) → global_calls c (call_each throws p s) ≡ 0
unfolding call_each
global_calls-call_each c throws p [] = refl
global_calls-call_each c throws p (d ∷ s) = ground (arith, global_calls-call_each c throws p s)

global_calls-global_call_each :
    (c : ℕ) (throws : ℕ → Bool) (t p : Value) (s : List ℕ)
    → is_set s ≡ true
    → global_calls c (global_call_each throws t p s) ≡ (if has c s then 1 else 0)
unfolding global_call_each is_set has
global_calls-global_call_each c throws t p [] u = refl
global_calls-global_call_each c throws t p (d ∷ s) u =
    ground (arith, global_calls-global_call_each c throws t p s)

global_calls_both :
    (c : ℕ) (throws : ℕ → Bool) (t p : Value) (s g : List ℕ)
    → is_set g ≡ true
    → global_calls c (call_each throws p s ++ global_call_each throws t p g)
      ≡ (if has c g then 1 else 0)
global_calls_both c throws t p s g u =
    global_calls-append c (call_each throws p s) (global_call_each throws t p g)
    ∙ omega
        (arith, global_calls-call_each c throws p s, global_calls-global_call_each c throws t p g u)

-- After any history of subscriptions a packet of type `t` (a nonempty text) calls a callback as a
-- listener to `t` exactly once if it listens to `t`, by the last call of `subscribe`, of an
-- unsubscribing function or of `disconnect` that concerns both, and otherwise not at all; and it
-- calls the callback as a listener to every packet exactly once if it is one by the last call of
-- `subscribeAll`, of its unsubscribing function or of `disconnect` that concerns it, and otherwise
-- not at all. Whether callbacks throw makes no difference.
pub calls-handle_message :
    (throws : ℕ → Bool) (t : String) (c : ℕ) (d : Fields) (os : List Op)
    → lookup_field "type" d ≡ string t
    → str_eq t "" ≡ false
    → let effects = handle_message throws (some (object d)) (after os) in
      (calls c effects ≡ (if listens t c os then 1 else 0))
      × (global_calls c effects ≡ (if listens_all c os then 1 else 0))
unfolding handle_message
calls-handle_message throws t c d os ty ne =
    rw (ty, ne)
      (
        calls_both c throws _ _ _ _ (after-Agrees t c os).0
            ∙ ap (λ b. if b then 1 else 0) (after-Agrees t c os).1,
        global_calls_both c throws _ _ _ _ (after-AgreesAll c os).0
            ∙ ap (λ b. if b then 1 else 0) (after-AgreesAll c os).1,
      )
