-- ===== src/Holdings/Details.antt =====
-- components/trading/StockDetailsPanel.jsx: the signal that the panel shows. The page does not give it
-- a key, so that its state outlives a change of the position. A symbol is a text, "" if there is no
-- position; the signal of the live quote is a text that is not empty, or missing.
use algorithmic_trading_simu.Prelude.{
  ◌≡◌, refl, Bool, true, false, not, ◌&&◌, Option, none, some, String, str_eq, if◌then◌else◌, arith,
}
use algorithmic_trading_simu.Js.{
  Value, null, string, object, end, field, truthy, or_else, coalesce, opt_get, insert, spread,
  fields_of,
}
use algorithmic_trading_simu.Js.Spread.{lookup-insert}
use algorithmic_trading_simu.Auth.{Reply, replied, failed}

-- The properties, and the state.
pub record Details : Type 0 where
  pub symbol : String
  pub position : Value
  pub live_signal : Option String
  pub signal_data : Value
  pub loading_signal : Bool

-- What `fetchSignal` remembers of the render that started it.
pub record Asked : Type 0 where
  pub live_signal : Option String
  pub bare : Bool

abbrev pub is_some : Option String → Bool
is_some none = false
is_some (some s) = true

abbrev pub live_value : Option String → Value
live_value none = null
live_value (some s) = string s

unfoldable pub asked_of : Details → Asked
asked_of d = record {
  live_signal = d.live_signal;
  bare =
      not (is_some d.live_signal)
      && not (truthy (opt_get "signal" d.position))
      && not (truthy d.signal_data);
}

-- The first `setSignalData`.
unfoldable pub with_live : Option String → Value → Value
with_live none prev = prev
with_live (some s) prev = object (
    field "signal" (string s) (
      field "confidence" (coalesce (opt_get "confidence" prev) null) (
        field "factors" (coalesce (opt_get "factors" prev) (object end)) (
          field "risk_metrics" (coalesce (opt_get "risk_metrics" prev) (object end))
            (field "scores" (coalesce (opt_get "scores" prev) (object end)) end)))))

-- The effect, up to its `await`.
unfoldable pub run_effect : Details → Details
unfolding with_live
run_effect d = if str_eq d.symbol "" then d else record d {
  signal_data = with_live d.live_signal d.signal_data;
  loading_signal = if truthy d.signal_data then d.loading_signal else true;
}

-- Another position or live signal.
unfoldable pub select : String → Value → Option String → Details → Details
unfolding run_effect
select symbol position live d =
    run_effect (record d { symbol = symbol; position = position; live_signal = live })

-- The `catch`. The request client's errors have no name, so that an aborted request comes here too.
unfoldable pub fall_back : Asked → Details → Details
fall_back a d = record d {
  signal_data =
      if a.bare
      then or_else d.signal_data
          (object (field "signal" (string "HOLD") (field "confidence" null end)))
      else d.signal_data;
  loading_signal = false;
}

-- The rest of the effect, with the server's answer.
unfoldable pub answer : Asked → Reply → Details → Details
unfolding fall_back
answer a (failed err) d = fall_back a d
answer a (replied res) d = record d {
  signal_data = object (
      insert "signal"
        (coalesce (live_value a.live_signal) (
          coalesce (opt_get "signal" res)
            (coalesce (opt_get "signal" d.signal_data) (string "HOLD"))))
        (spread (fields_of d.signal_data) (fields_of res)));
  loading_signal = false;
}

unfoldable pub shown_signal : Details → Value
shown_signal d =
    or_else (opt_get "signal" d.signal_data)
      (or_else (opt_get "signal" d.position) (or_else (live_value d.live_signal) (string "HOLD")))

truthy-object : (v : Value) (s : String) → opt_get "signal" v ≡ string s → truthy v ≡ true
truthy-object (object fs) s h = refl
truthy-object Value.undefined s h = absurd (ground (arith, h))
truthy-object null s h = absurd (ground (arith, h))
truthy-object (Value.bool b) s h = absurd (ground (arith, h))
truthy-object (Value.number n) s h = absurd (ground (arith, h))
truthy-object (string t) s h = absurd (ground (arith, h))
truthy-object (Value.array xs) s h = absurd (ground (arith, h))

module _ (d : Details) (symbol : String) (position : Value) where
  -- When the panel shows a signal for one position and another is chosen that has no live signal, an
  -- answer with a signal is shown, but if the request fails the panel goes on showing the old
  -- signal, whatever the new position's own signal is, and says that it is not loading.
  pub select_then_answer :
      (err res : Value) (s t : String)
      → str_eq symbol "" ≡ false
      → opt_get "signal" d.signal_data ≡ string s
      → str_eq s "" ≡ false
      → opt_get "signal" res ≡ string t
      → str_eq t "" ≡ false
      → let p = select symbol position none d in
        let a = asked_of (record d { symbol = symbol; position = position; live_signal = none }) in
        (shown_signal (answer a (replied res) p) ≡ string t)
        × (shown_signal (answer a (failed err) p) ≡ string s)
        × ((answer a (failed err) p).loading_signal ≡ false)
  unfolding select run_effect with_live answer fall_back shown_signal asked_of
  select_then_answer err res s t k old s_full new t_full =
      let held = truthy-object d.signal_data s old in
      let replied_data = spread (fields_of d.signal_data) (fields_of res) in
      (
        ground (arith, k, new, t_full, lookup-insert "signal" "signal" (string t) replied_data),
        ground (arith, k, held, old, s_full),
        refl,
      )
