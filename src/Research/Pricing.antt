-- ===== src/Research/Pricing.antt =====
-- pages/OptionPricer.jsx: the form, the runs, and the number of the simulation that is animated. The
-- button is off while the page says that it is loading.
pub mod Simulations
use algorithmic_trading_simu.Prelude.{
  ℕ, zero, suc, ◌+◌, ◌≤◌, ◌≡◌, refl, ap, ◌∙◌, Bool, true, false, String, str_eq, List, [], ◌∷◌,
  ◌++◌, length, length-append, if◌then◌else◌, ◌*◌, ◌==◌, arith, Bool-cases, inl, inr,
}
use algorithmic_trading_simu.Prelude.Int.{pos}
use algorithmic_trading_simu.Js.{
  Number, finite, Value, string, number, Fields, end, field, lookup, to_number, opt_get,
}
use algorithmic_trading_simu.Auth.{Reply, replied, failed}
use algorithmic_trading_simu.Research.{
  whole, Fetch, status_error, data_of, set, mounted, ask, settle,
}

-- What priceOption is called with.
pub record Contract : Type 0 where
  pub s : Number
  pub k : Number
  pub t : Number
  pub r : Number
  pub sigma : Number
  pub kind : Value
  pub n : Number

-- `waiting` are the requests without an answer; the first one has number 1.
pub record Pricer : Type 0 where
  pub form : Fields
  pub sim_id : ℕ
  pub fetch : Fetch Contract
  pub waiting : List ℕ

-- `DEFAULTS`; the numbers count hundredths.
abbrev pub defaults : Fields
defaults = field "S" (whole 100) (
    field "K" (whole 100) (
      field "T" (whole 1) (
        field "rPct" (whole 5) (
          field "volPct" (whole 20) (field "kind" (string "call") (field "n" (whole 20000) end))))))

-- `d?.status === "success"`.
abbrev pub is_text : String → Value → Bool
is_text t (string u) = str_eq u t
is_text t _ = false

abbrev pub is_success : Reply → Bool
is_success (replied d) = is_text "success" (opt_get "status" d)
is_success (failed err) = false

pub data Event : Type 0 where
  sets : String → Value → Event
  clicks : Event
  arrives : ℕ → Event

-- Whether a request is waiting, and the requests after its answer.
abbrev pub is_waiting : ℕ → List ℕ → Bool
is_waiting n [] = false
is_waiting n (m ∷ ms) = if n == m then true else is_waiting n ms

abbrev pub without : ℕ → List ℕ → List ℕ
without n [] = []
without n (m ∷ ms) = if n == m then ms else m ∷ without n ms

module _ (convert : Value → Number) (percent : Number → Number) where
  unfoldable pub contract : Fields → Contract
  contract form = record {
    s = to_number convert (lookup "S" form);
    k = to_number convert (lookup "K" form);
    t = to_number convert (lookup "T" form);
    r = percent (to_number convert (lookup "rPct" form));
    sigma = percent (to_number convert (lookup "volPct" form));
    kind = lookup "kind" form;
    n = to_number convert (lookup "n" form);
  }

  -- The effect of a `runKey`, up to its `await`.
  unfoldable pub run_effect : Pricer → Pricer
  unfolding ask contract
  run_effect p = record p {
    fetch = ask (contract p.form) p.fetch;
    waiting = suc (length p.fetch.sent) ∷ p.waiting;
  }

  unfoldable pub click : Pricer → Pricer
  unfolding run_effect
  click p = if p.fetch.loading then p else run_effect p

  unfoldable pub start : Pricer
  unfolding run_effect
  start = run_effect (record { form = defaults; sim_id = 0; fetch = mounted; waiting = [] })

-- The rest of the effect; its `mounted` is true if no effect ran after it.
unfoldable pub answer : (ℕ → Reply) → ℕ → Pricer → Pricer
unfolding settle
answer server n p =
    if n == length p.fetch.sent
    then record p {
      fetch = settle (data_of status_error (server n)) p.fetch;
      sim_id = if is_success (server n) then suc p.sim_id else p.sim_id;
      waiting = without n p.waiting;
    }
    else record p { waiting = without n p.waiting }

module _ (convert : Value → Number) (percent : Number → Number) (server : ℕ → Reply) where
  -- A request is answered once.
  unfoldable pub step : Pricer → Event → Pricer
  unfolding set click answer
  step p (sets k v) = record p { form = set k v p.form }
  step p clicks = click convert percent p
  step p (arrives n) = if is_waiting n p.waiting then answer server n p else p

  abbrev pub run : Pricer → List Event → Pricer
  run p [] = p
  run p (e ∷ es) = run (step p e) es
