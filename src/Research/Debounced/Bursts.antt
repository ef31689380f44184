-- ===== src/Research/Debounced/Bursts.antt =====
-- A burst of changes leads to one request.
use algorithmic_trading_simu.Prelude.{
  ℕ, ◌+◌, ◌≤◌, ◌≡◌, refl, ap, ◌∙◌, Bool, true, false, ◌&&◌, Option, none, some, String, List, [],
  ◌∷◌, ◌++◌, ltb, arith,
}
use algorithmic_trading_simu.Js.{Value, Fields}
use algorithmic_trading_simu.Research.{set, ask, settle}
use algorithmic_trading_simu.Research.Debounced.{
  Settings, Page, Event, edits, wakes, answers, is_due, schedule, edit, wake, answer, step, run,
}

-- Whether each change comes less than the waiting time after the one before, the first of them at t,
-- and the timer is looked at only in between.
abbrev pub brisk : ℕ → ℕ → List Event → Bool
brisk wait t [] = true
brisk wait t (edits u k v ∷ es) = ltb u (t + wait) && brisk wait u es
brisk wait t (wakes u ∷ es) = ltb u (t + wait) && brisk wait t es
brisk wait t (answers n r ∷ es) = brisk wait t es

-- The time of the last change, and the form after all.
abbrev pub last_edit : ℕ → List Event → ℕ
last_edit t [] = t
last_edit t (edits u k v ∷ es) = last_edit u es
last_edit t (wakes u ∷ es) = last_edit t es
last_edit t (answers n r ∷ es) = last_edit t es

abbrev pub final_form : Fields → List Event → Fields
final_form form [] = form
final_form form (edits u k v ∷ es) = final_form (set k v form) es
final_form form (wakes u ∷ es) = final_form form es
final_form form (answers n r ∷ es) = final_form form es

module _ {ℓ} {A : Type ℓ} (s : Settings A) where
  wake_early : (u : ℕ) (p : Page A) → is_due p.due u ≡ false → wake s u p ≡ p
  unfolding wake
  wake_early u p h = rw (h) refl

  wake_late :
      (u : ℕ) (p : Page A)
      → is_due p.due u ≡ true
      → wake s u p ≡ record p { due = none; fetch = ask (s.params p.form) p.fetch }
  unfolding wake
  wake_late u p h = simp (h) refl

  early :
      (t u : ℕ) (d : Option ℕ)
      → d ≡ some (t + s.wait)
      → ltb u (t + s.wait) ≡ true
      → is_due d u ≡ false
  early t u d e h = ground arith

  run-brisk :
      (t : ℕ) (es : List Event) (p : Page A)
      → p.due ≡ some (t + s.wait)
      → brisk s.wait t es ≡ true
      → ((run s p es).due ≡ some (last_edit t es + s.wait))
        × ((run s p es).form ≡ final_form p.form es)
        × ((run s p es).fetch.sent ≡ p.fetch.sent)
  unfolding step edit schedule answer settle
  run-brisk t [] p d b = (d, refl, refl)
  run-brisk t (edits u k v ∷ es) p d b = run-brisk u es (edit s u k v p) refl (ground arith)
  run-brisk t (wakes u ∷ es) p d b =
      rw (run, wake_early u p (early t u p.due d (ground arith)))
        (run-brisk t es p d (ground arith))
  run-brisk t (answers n r ∷ es) p d b = run-brisk t es (answer s n r p) d b

  late : (d : Option ℕ) (t u : ℕ) → d ≡ some (t + s.wait) → t + s.wait ≤ u → is_due d u ≡ true
  late d t u e h = ground arith

  asked :
      (q : Page A) {form : Fields} {sent : List A}
      → q.form ≡ form
      → q.fetch.sent ≡ sent
      → (ask (s.params q.form) q.fetch).sent ≡ sent ++ s.params form ∷ []
  unfolding ask
  asked q e h = cc

  -- After a change of the form at t and then a burst of changes, each less than the waiting time
  -- after the one before, with whatever answers in between, nothing has been sent; the timer then
  -- sends one request, for the form after all changes, and looking at it again sends nothing more.
  pub burst-sends_once :
      (t u w : ℕ) (k : String) (v : Value) (es : List Event) (p : Page A)
      → brisk s.wait t es ≡ true
      → last_edit t es + s.wait ≤ u
      → let q = run s (edit s t k v p) es in
        let last = final_form (set k v p.form) es in
        (q.fetch.sent ≡ p.fetch.sent)
        × ((wake s u q).fetch.sent ≡ p.fetch.sent ++ s.params last ∷ [])
        × (wake s w (wake s u q) ≡ wake s u q)
  unfolding edit schedule
  burst-sends_once t u w k v es p b l =
      let q = run s (edit s t k v p) es in
      let (due, form, sent) = run-brisk t es (edit s t k v p) refl b in
      let fires = wake_late u q (late q.due (last_edit t es) u due l) in
      (
        sent,
        ap (λ r. r.fetch.sent) fires ∙ asked q form sent,
        rw (fires)
            (wake_early w (record q { due = none; fetch = ask (s.params q.form) q.fetch }) refl),
      )
