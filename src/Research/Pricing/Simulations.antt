-- ===== src/Research/Pricing/Simulations.antt =====
-- One request at a time, and one animation for each successful answer.
use algorithmic_trading_simu.Prelude.{
  ℕ, zero, suc, ◌⊎◌, ◌≡◌, refl, ap, ◌∙◌, sym, true, false, List, [], ◌∷◌, ◌-◌, length,
  length-append, if◌then◌else◌, ◌==◌, arith, Bool-cases, inl, inr,
}
use algorithmic_trading_simu.Js.{Number, Value}
use algorithmic_trading_simu.Auth.{Reply}
use algorithmic_trading_simu.Research.{Fetch, status_error, data_of, ask, settle, mounted}
use algorithmic_trading_simu.Research.Pricing.{
  Contract, Pricer, Event, sets, clicks, arrives, is_success, is_waiting, contract, run_effect,
  click, answer, step, start, run, defaults,
}

-- How many of the first n answers of the server are successful.
abbrev pub successes : (ℕ → Reply) → ℕ → ℕ
successes server zero = 0
successes server (suc n) =
    let before = successes server n in if is_success (server (suc n)) then suc before else before

-- The requests that are answered: all, but the last while the page says that it is loading.
abbrev pub answered : Fetch Contract → ℕ
answered f = if f.loading then length f.sent - 1 else length f.sent

module _ (convert : Value → Number) (percent : Number → Number) (server : ℕ → Reply) where
  -- The two states of the page: its last request is waiting, or answered.
  data Inv (p : Pricer) : Type 0 where
    waits :
        (n : ℕ)
        → p.fetch.loading ≡ true
        → length p.fetch.sent ≡ suc n
        → p.waiting ≡ suc n ∷ []
        → p.sim_id ≡ successes server n
        → Inv p
    rests :
        p.fetch.loading ≡ false
        → p.waiting ≡ []
        → p.sim_id ≡ successes server (length p.fetch.sent)
        → p.fetch.result ≡ data_of status_error (server (length p.fetch.sent))
        → Inv p

  run_effect-Inv :
      (p : Pricer)
      → p.waiting ≡ []
      → p.sim_id ≡ successes server (length p.fetch.sent)
      → Inv (run_effect convert percent p)
  unfolding run_effect ask
  run_effect-Inv p w i =
      waits (length p.fetch.sent) refl
        (ground (arith, length-append p.fetch.sent (contract convert percent p.form ∷ [])))
        (ap (λ ws. suc (length p.fetch.sent) ∷ ws) w) i

  click-Inv : (p : Pricer) → Inv p → Inv (click convert percent p)
  unfolding click
  click-Inv p (waits n l s w i) = simp (l) (waits n l s w i)
  click-Inv p (rests l w i r) = simp (l) (run_effect-Inv p w i)

  answer-Inv :
      (m n : ℕ) (p : Pricer)
      → length p.fetch.sent ≡ suc n
      → p.waiting ≡ suc n ∷ []
      → p.sim_id ≡ successes server n
      → m ≡ suc n
      → Inv (answer server m p)
  unfolding answer settle
  answer-Inv m n p s w i e =
      let same : m == length p.fetch.sent ≡ true = ground (arith, s, e) in
      rw (same) (
        rests refl (ground (arith, w, e)) (ground (arith, s, i, e))
          (ap (λ k. data_of status_error (server k)) (e ∙ sym s)))

  arrives-Inv :
      (m : ℕ) (p : Pricer) → Inv p → is_waiting m p.waiting ≡ true → Inv (answer server m p)
  arrives-Inv m p (rests l w i r) e = absurd (ground (arith, w, e))
  arrives-Inv m p (waits n l s w i) e = answer-Inv m n p s w i (ground (arith, e, w))

  step-Inv : (p : Pricer) (e : Event) → Inv p → Inv (step convert percent server p e)
  unfolding step
  step-Inv p (sets k v) (waits n l s w i) = waits n l s w i
  step-Inv p (sets k v) (rests l w i r) = rests l w i r
  step-Inv p clicks v = click-Inv p v
  step-Inv p (arrives m) v = elim (Bool-cases (is_waiting m p.waiting)) [
    | inl e ↦ rw (e) (arrives-Inv m p v e)
    | inr e ↦ rw (e) (v)
  ]

  run-Inv : (es : List Event) (p : Pricer) → Inv p → Inv (run convert percent server p es)
  run-Inv [] p v = v
  run-Inv (e ∷ es) p v = run-Inv es (step convert percent server p e) (step-Inv p e v)

  start-Inv : Inv (start convert percent)
  unfolding start
  start-Inv =
      run_effect-Inv (record { form = defaults; sim_id = 0; fetch = mounted; waiting = [] }) refl
        refl

  -- Whatever the user enters and clicks, and whenever the answers arrive: the page says that it is
  -- loading exactly while one request waits, its last, and no other ever does; the simulations that
  -- were animated are as many as the successful ones of the answers; and when it is not loading, the
  -- page shows the answer to its last request, or the error.
  pub run-one_run :
      (es : List Event)
      → let p = run convert percent server (start convert percent) es in
        let n = length p.fetch.sent in
        (p.waiting ≡ (if p.fetch.loading then n ∷ [] else []))
        × (p.sim_id ≡ successes server (answered p.fetch))
        × ((p.fetch.loading ≡ true) ⊎ (p.fetch.result ≡ data_of status_error (server n)))
  run-one_run es = elim (run-Inv es (start convert percent) start-Inv) [
    | waits n l s w i ↦ (ground (arith, l, s, w), ground (arith, l, s, i), inl l)
    | rests l w i r ↦ (ground (arith, l, w), ground (arith, l, i), inr r)
  ]
