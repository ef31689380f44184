-- ===== src/Research/Debounced/Overtaking.antt =====
-- Which request belongs to the form, and which answer is shown.
use algorithmic_trading_simu.Prelude.{
  ℕ, ◌+◌, ◌≤◌, ◌≡◌, false, none, some, String, List, [], ◌∷◌, ◌++◌, arith, Bool-cases, inl, inr,
}
use algorithmic_trading_simu.Js.{Value}
use algorithmic_trading_simu.Auth.{Reply}
use algorithmic_trading_simu.Research.{
  set, ask, settle, data_of, status_error, latest, latest-append,
}
use algorithmic_trading_simu.Research.Debounced.{
  Settings, Page, Event, edits, wakes, answers, is_due, schedule, mount, edit, wake, answer, step,
  run,
}

module _ {ℓ} {A : Type ℓ} (s : Settings A) where
  -- A page without a timer has asked for its form last.
  abbrev UpToDate : Page A → Type ℓ
  UpToDate p = p.due ≡ none → latest p.fetch.sent ≡ some (s.params p.form)

  wake-UpToDate : (t : ℕ) (p : Page A) → UpToDate p → UpToDate (wake s t p)
  unfolding wake ask
  wake-UpToDate t p h = elim (Bool-cases (is_due p.due t)) [
    | inl e ↦ rw (e) (λ d. latest-append p.fetch.sent (s.params p.form))
    | inr e ↦ rw (e) (h)
  ]

  step-UpToDate : (p : Page A) (e : Event) → UpToDate p → UpToDate (step s p e)
  unfolding step edit schedule answer settle
  step-UpToDate p (edits t k v) h = λ d. absurd (ground (arith, d))
  step-UpToDate p (wakes t) h = wake-UpToDate t p h
  step-UpToDate p (answers n r) h = h

  run-UpToDate : (es : List Event) (p : Page A) → UpToDate p → UpToDate (run s p es)
  run-UpToDate [] p h = h
  run-UpToDate (e ∷ es) p h = run-UpToDate es (step s p e) (step-UpToDate p e h)

  -- Whatever the user enters, whenever the timer is looked at and whatever is answered: a page that
  -- waits for no timer has asked for the form that it has, and asked for nothing after that.
  run-asked_form :
      (t : ℕ) (es : List Event)
      → (run s (mount s t) es).due ≡ none
      → latest (run s (mount s t) es).fetch.sent ≡ some (s.params (run s (mount s t) es).form)
  unfolding mount schedule
  run-asked_form t es = run-UpToDate es (mount s t) (λ d. absurd (ground (arith, d)))

  -- When the form changes at t and again, at u, once the first change was asked for, and the later
  -- of the two requests is answered first, the page shows that answer and says that it is not
  -- loading; the answer to the earlier request then replaces it, and is shown for the later form.
  pub overtaken_answer :
      (t u n m : ℕ) (j k : String) (v w : Value) (newer older : Reply) (p : Page A)
      → t + s.wait ≤ u
      → let first = set j v p.form in
        let second = set k w first in
        let f = run s p (
          edits t j v
          ∷ wakes (t + s.wait)
          ∷ edits u k w
          ∷ wakes (u + s.wait)
          ∷ answers m newer
          ∷ []) in
        let g = run s f (answers n older ∷ []) in
        (f.fetch.sent ≡ (p.fetch.sent ++ s.params first ∷ []) ++ s.params second ∷ [])
        × (f.fetch.result ≡ data_of status_error newer)
        × (f.fetch.loading ≡ false)
        × (g.fetch.result ≡ data_of status_error older)
        × (g.fetch.loading ≡ false)
        × (g.form ≡ second)
        × (g.due ≡ none)
  unfolding step edit schedule wake ask answer settle
  overtaken_answer t u n m j k v w newer older p h = ground arith
