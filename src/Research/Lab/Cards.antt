-- ===== src/Research/Lab/Cards.antt =====
-- The figures do not depend on the order of the replies, and a reply of another form ends the page.
use algorithmic_trading_simu.Prelude.{
  ℕ, ◌>>=◌, map_option, ◌≡◌, refl, sym, ap, ◌∙◌, Bool, true, false, ◌||◌, Option, none, some,
  String, str_eq, eq_iff, List, [], ◌∷◌, if◌then◌else◌, arith, Bool-cases, inl, inr,
}
use algorithmic_trading_simu.Js.{Number, Value, undefined, Fields, end, lookup, insert}
use algorithmic_trading_simu.Js.Spread.{lookup-insert}
use algorithmic_trading_simu.Auth.{Reply, replied, failed}
use algorithmic_trading_simu.Research.Lab.{
  Module, options, vol, forecast, backtest, predict, sentiment, key, pick, stat, settle_card,
  arrive, run,
}

-- The module of a key.
abbrev from_key : String → Option Module
from_key s =
    if str_eq s "options"
    then some options
    else if str_eq s "vol"
    then some vol
    else if str_eq s "forecast"
    then some forecast
    else if str_eq s "backtest"
    then some backtest
    else if str_eq s "predict"
    then some predict
    else if str_eq s "sentiment"
    then some sentiment
    else none

from_key-key : (m : Module) → from_key (key m) ≡ some m
from_key-key options = refl
from_key-key vol = refl
from_key-key forecast = refl
from_key-key backtest = refl
from_key-key predict = refl
from_key-key sentiment = refl

key_injective : (m n : Module) → str_eq (key m) (key n) ≡ true → some m ≡ some n
key_injective m n e =
    sym (from_key-key m) ∙ ap from_key ((eq_iff (key m) (key n)).0 e) ∙ from_key-key n

abbrev pub is_none : Option Value → Bool
is_none none = true
is_none (some v) = false

abbrev pub value_of : Option Value → Value
value_of none = undefined
value_of (some v) = v

abbrev pub includes : Module → List Module → Bool
includes m [] = false
includes m (n ∷ ns) = str_eq (key n) (key m) || includes m ns

module _ (convert : Value → Number) (to_fixed : ℕ → Number → String) (server : Module → Reply) where
  -- What a card shows once its reply is there; none if the reply has not the form that it reads.
  abbrev pub figure_of : Module → Reply → Option Value
  unfolding pick
  figure_of m (replied d) = map_option (λ t. stat convert to_fixed t m) (pick convert to_fixed m d)
  figure_of m (failed err) = some (stat convert to_fixed "—" m)

  abbrev pub figure : Module → Option Value
  figure m = figure_of m (server m)

  abbrev pub any_broken : List Module → Bool
  any_broken [] = false
  any_broken (m ∷ ms) = is_none (figure m) || any_broken ms

  settle_card-figure :
      (m : Module) (r : Reply) (fs : Fields)
      → settle_card convert to_fixed m r fs ≡ map_option (λ v. insert (key m) v fs) (figure_of m r)
  unfolding settle_card
  settle_card-figure m (failed err) fs = refl
  settle_card-figure m (replied d) fs =
      elim (pick convert to_fixed m d)
        as (λ p.
          (p >>= λ t. some (insert (key m) (stat convert to_fixed t m) fs))
          ≡ map_option (λ v. insert (key m) v fs) (map_option (λ t. stat convert to_fixed t m) p)) [
            | none ↦ refl
            | some t ↦ refl
          ]

  run-none : (ms : List Module) → run convert to_fixed server none ms ≡ none
  unfolding arrive
  run-none [] = refl
  run-none (m ∷ ms) = run-none ms

  -- The card of m after the replies of ms, over earlier figures.
  abbrev expected : Module → List Module → Fields → Option Value
  expected m ms fs =
      if any_broken ms
      then none
      else some (if includes m ms then value_of (figure m) else lookup (key m) fs)

  expected-arrived :
      (m n : Module) (ms : List Module) (v : Value) (fs : Fields)
      → figure n ≡ some v
      → expected m ms (insert (key n) v fs) ≡ expected m (n ∷ ms) fs
  expected-arrived m n ms v fs h = elim (Bool-cases (str_eq (key n) (key m))) [
    | inl e ↦ ground (
      arith,
      e,
      lookup-insert (key n) (key m) v fs,
      h,
      ap (map_option figure) (key_injective n m e),
    )
    | inr e ↦ ground (arith, e, lookup-insert (key n) (key m) v fs, h)
  ]

  -- One more reply before those of ms.
  run-arrived :
      (m n : Module) (ms : List Module) (fs : Fields)
      → ((gs : Fields)
          → map_option (lookup (key m)) (run convert to_fixed server (some gs) ms)
            ≡ expected m ms gs)
      → (f : Option Value) → figure n ≡ f
      → map_option
          (lookup (key m))
          (run convert to_fixed server (arrive convert to_fixed server n (some fs)) ms)
        ≡ expected m (n ∷ ms) fs
  unfolding arrive
  run-arrived m n ms fs rest none h = rw (settle_card-figure n (server n) fs, h, run-none ms) refl
  run-arrived m n ms fs rest (some v) h =
      let settled =
        settle_card-figure n (server n) fs ∙ ap (map_option (λ w. insert (key n) w fs)) h in
      ap (λ lab. map_option (lookup (key m)) (run convert to_fixed server lab ms)) settled
      ∙ rest (insert (key n) v fs)
      ∙ expected-arrived m n ms v fs h

  run-expected :
      (m : Module) (ms : List Module) (fs : Fields)
      → map_option (lookup (key m)) (run convert to_fixed server (some fs) ms) ≡ expected m ms fs
  run-expected m [] fs = refl
  run-expected m (n ∷ ms) fs = run-arrived m n ms fs (run-expected m ms) (figure n) refl

  -- Once the replies of ms have arrived, in their order, the page has ended in an error if one of
  -- them has not the form that its card reads; otherwise each card of ms shows its own figure, or
  -- "—" if its request failed, and any other card waits. So the order of the replies is of no
  -- account.
  pub run-figures :
      (m : Module) (ms : List Module)
      → map_option (lookup (key m)) (run convert to_fixed server (some end) ms) ≡ (
          if any_broken ms
          then none
          else some (if includes m ms then value_of (figure m) else undefined))
  unfolding lookup
  run-figures m ms = run-expected m ms end
