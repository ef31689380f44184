-- ===== src/Account/Changing.antt =====
-- Which passwords are sent, and what the user is told when one is refused.
use algorithmic_trading_simu.Prelude.{
  ℕ, ◌≡◌, refl, Bool, true, false, ◌&&◌, String, str_eq, List, [], ◌∷◌, ◌++◌, if◌then◌else◌, leb,
  ◌==◌, arith, Bool-cases, inl, inr,
}
use algorithmic_trading_simu.Js.{Value, string, opt_get, lookup}
use algorithmic_trading_simu.Auth.{
  AuthState, Reply, replied, failed, change_password, Outcome, resolved, rejected, type_error,
}
use algorithmic_trading_simu.SignIn.{text_length}
use algorithmic_trading_simu.Api.Message.{Render, api_message, api_rejection}
use algorithmic_trading_simu.Account.{
  Page, open_page, complained, Event, enters, submits, resets, answers_me, answers_password,
  answers_reset, me_answer, submit_password, finish_change, password_answer, do_reset, reset_answer,
  fresh_answer, step, run,
}

-- Every new password has at least 8 characters.
abbrev pub long_enough : List (String × String) → Bool
long_enough [] = true
long_enough ((old, next) ∷ rest) = leb 8 (text_length next) && long_enough rest

record Inv (p : Page) : Type 0 where
  single : p.unanswered ≡ (if p.saving then 1 else 0)
  long : long_enough p.sent ≡ true

long_enough-append :
    (xs : List (String × String)) (old next : String)
    → long_enough xs ≡ true
    → leb 8 (text_length next) ≡ true
    → long_enough (xs ++ (old, next) ∷ []) ≡ true
long_enough-append [] old next h k = ground (arith, h, k)
long_enough-append ((o, n) ∷ xs) old next h k = ground (arith, h, k, long_enough-append xs old next)

submit_password-Inv : (p : Page) → Inv p → Inv (submit_password p)
unfolding submit_password
submit_password-Inv p v = record {
  single = ground (arith, v.single);
  long = ground (arith, v.long, long_enough-append p.sent p.current p.next v.long);
}

finish_change-Inv :
    (o : Outcome) (p : Page) → Inv p → (p.unanswered ≡ 0 → false ≡ true) → Inv (finish_change o p)
unfolding finish_change
finish_change-Inv (resolved d) p v h = record {
  single = ground (arith, v.single, h);
  long = v.long;
}
finish_change-Inv (rejected e) p v h = record {
  single = ground (arith, v.single, h);
  long = v.long;
}
finish_change-Inv type_error p v h = record { single = ground (arith, v.single, h); long = v.long }

password_answer-Inv :
    (r : Reply) (p : Page) → Inv p → (p.unanswered ≡ 0 → false ≡ true) → Inv (password_answer r p)
unfolding password_answer
password_answer-Inv r p v h = finish_change-Inv (change_password r p.auth).1 p v h

step-Inv : (p : Page) (e : Event) → Inv p → Inv (step p e)
unfolding step do_reset me_answer reset_answer fresh_answer
step-Inv p (enters current next confirm) v = record { single = v.single; long = v.long }
step-Inv p submits v = submit_password-Inv p v
step-Inv p (resets agreed) v = record {
  single = ground (arith, v.single);
  long = ground (arith, v.long);
}
step-Inv p (answers_me (replied d)) v = record { single = v.single; long = v.long }
step-Inv p (answers_me (failed e)) v = v
step-Inv p (answers_password r) v = elim (Bool-cases (p.unanswered == 0)) [
  | inl e ↦ rw (e) (v)
  | inr e ↦ rw (e) (password_answer-Inv r p v (λ none. ground (arith, e, none)))
]
step-Inv p (answers_reset r) v = record {
  single = ground (arith, v.single);
  long = ground (arith, v.long);
}

run-Inv : (es : List Event) (p : Page) → Inv p → Inv (run p es)
run-Inv [] p v = v
run-Inv (e ∷ es) p v = run-Inv es (step p e) (step-Inv p e v)

-- Whatever the user enters and clicks and the server answers, at most one change of the password is
-- unanswered, exactly while the page is saving, and every new password sent has at least 8
-- characters.
run-one_change :
    (auth : AuthState) (es : List Event)
    → let p = run (open_page auth) es in
      (p.unanswered ≡ (if p.saving then 1 else 0)) × (long_enough p.sent ≡ true)
run-one_change auth es =
    let v = run-Inv es (open_page auth) (record { single = refl; long = refl }) in
    (v.single, v.long)

-- When the server refuses a password and gives a text as the detail, the request client rejects with
-- that text as its message; the page reads the detail in a response that the error does not have,
-- and says only that the password could not be changed.
pub refused_change :
    (k : Render) (status : ℕ) (reply : Value) (reason : String) (p : Page)
    → opt_get "detail" reply ≡ string reason
    → str_eq reason "" ≡ false
    → let err = api_rejection (api_message k status reply) status reply in
      (opt_get "message" err ≡ string reason)
      × ((password_answer (failed err) p).toasts
          ≡ p.toasts ++ complained (string "Could not change password") ∷ [])
      × ((password_answer (failed err) p).saving ≡ false)
unfolding password_answer finish_change change_password api_message lookup
refused_change k status reply reason p d n = (rw (d) (ground (arith, n)), refl, refl)
