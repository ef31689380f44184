-- ===== src/Market/Guard.antt =====
-- The tick guard of useMarket: which prices it lets into the buffer.
use algorithmic_trading_simu.Prelude.{
  ◌≡◌, refl, ◌⊎◌, inl, inr, Bool, true, false, ◌&&◌, Option, none, some, if◌then◌else◌, Bool-cases,
}
use algorithmic_trading_simu.Prelude.Int.{ℤ}
use algorithmic_trading_simu.Js.{
  Number, finite, infinity, neg_infinity, nan, Value, undefined, number, is_positive, to_number,
}
use algorithmic_trading_simu.Market.{moves_too_far, verdict}

-- A price that may be shown: none yet, or a value that `Number()` reads as finite and above 0, which
-- may be a text or a Boolean.
abbrev pub IsSane : (Value → Number) → Value → Type 0
IsSane convert v =
    (v ≡ undefined) ⊎ ((n : ℤ) × (to_number convert v ≡ finite n) × (is_positive (finite n) ≡ true))

-- What a verdict says: the new price is taken only if it is finite and above 0; otherwise the price
-- is the old one, or none if there was no finite one.
abbrev pub Judged : Number → Number → Option Value → Type 0
Judged next prev none = (n : ℤ) × (next ≡ finite n) × (is_positive (finite n) ≡ true)
Judged next prev (some v) =
    (v ≡ undefined) ⊎ ((p : ℤ) × (v ≡ number (finite p)) × (prev ≡ finite p))

Judged-if :
    (n : ℤ) (prev : Number) (v : Option Value)
    → ((is_positive (finite n) ≡ false) → Judged (finite n) prev v)
    → Judged (finite n) prev (if is_positive (finite n) then none else v)
Judged-if n prev v other = elim (Bool-cases (is_positive (finite n))) [
  | inl good ↦ rw (good) (n, refl, good)
  | inr bad ↦ rw (bad) (other bad)
]

moved-Judged :
    (n p : ℤ) (far : Bool)
    → is_positive (finite n) ≡ true
    → Judged (finite n) (finite p) (if far then some (number (finite p)) else none)
moved-Judged n p true good = inr (p, refl, refl)
moved-Judged n p false good = (n, refl, good)

both-Judged :
    (n p : ℤ) (old : Bool)
    → Judged (finite n) (finite p) (
        if is_positive (finite n) && old
        then if moves_too_far n p then some (number (finite p)) else none
        else if is_positive (finite n)
        then none
        else some (number (finite p)))
both-Judged n p true = elim (Bool-cases (is_positive (finite n))) [
  | inl good ↦ rw (good) (moved-Judged n p (moves_too_far n p) good)
  | inr bad ↦ rw (bad) (inr (p, refl, refl))
]
both-Judged n p false = elim (Bool-cases (is_positive (finite n))) [
  | inl good ↦ rw (good) (n, refl, good)
  | inr bad ↦ rw (bad) (inr (p, refl, refl))
]

pub verdict-Judged : (next prev : Number) → Judged next prev (verdict next prev)
unfolding verdict
verdict-Judged (finite n) (finite p) = both-Judged n p (is_positive (finite p))
verdict-Judged (finite n) infinity = Judged-if n infinity (some undefined) (λ bad. inl refl)
verdict-Judged (finite n) neg_infinity = Judged-if n neg_infinity (some undefined) (λ bad. inl refl)
verdict-Judged (finite n) nan = Judged-if n nan (some undefined) (λ bad. inl refl)
verdict-Judged infinity (finite p) = inr (p, refl, refl)
verdict-Judged neg_infinity (finite p) = inr (p, refl, refl)
verdict-Judged nan (finite p) = inr (p, refl, refl)
verdict-Judged infinity _ = inl refl
verdict-Judged neg_infinity _ = inl refl
verdict-Judged nan _ = inl refl
