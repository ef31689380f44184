-- ===== src/Research/Guarded.antt =====
-- An effect with a `mounted` flag: its cleanup, which runs before the next effect, turns the flag off,
-- so that the answer to a request counts only while no later one was sent.
use algorithmic_trading_simu.Prelude.{
  ℕ, ◌≡◌, ap, false, if◌then◌else◌, length, ◌==◌, arith, inl, inr, Bool-cases,
}
use algorithmic_trading_simu.Js.{Value}
use algorithmic_trading_simu.Auth.{Reply}
use algorithmic_trading_simu.Research.{Fetch, data_of, ask, settle}

module _ {ℓ} {A : Type ℓ} (fallback : Value) where
  -- The answer to the request of that number.
  unfoldable pub answer : ℕ → Reply → Fetch A → Fetch A
  answer n r f = if n == length f.sent then settle (data_of fallback r) f else f

  -- Unless it says that it is loading, the page shows the server's answer to its last request.
  abbrev pub Shown : (ℕ → Reply) → Fetch A → Type 0
  Shown server f = f.loading ≡ false → f.result ≡ data_of fallback (server (length f.sent))

  pub ask-Shown : (server : ℕ → Reply) (a : A) (f : Fetch A) → Shown server (ask a f)
  unfolding ask
  ask-Shown server a f = λ h. absurd (ground (arith, h))

  pub answer-Shown :
      (server : ℕ → Reply) (n : ℕ) (f : Fetch A)
      → Shown server f
      → Shown server (answer n (server n) f)
  unfolding answer settle
  answer-Shown server n f h = elim (Bool-cases (n == length f.sent)) [
    | inl e ↦ rw (e) (λ done. ap (λ k. data_of fallback (server k)) (ground (arith, e)))
    | inr e ↦ rw (e) (h)
  ]
