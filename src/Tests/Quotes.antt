-- ===== src/Tests/Quotes.antt =====
-- The market buffer and store at concrete packets.
use algorithmic_trading_simu.Prelude.{ℕ, ◌≡◌, refl, true, List, [], ◌∷◌, inl}
use algorithmic_trading_simu.Prelude.Int.{pos}
use algorithmic_trading_simu.Prelude.Keys.{has, add}
use algorithmic_trading_simu.Js.{
  Number, finite, nan, Value, Items, string, number, array, object, nil, cons, end, field, lookup,
  owns, to_number,
}
use algorithmic_trading_simu.Market.{
  Hook, empty, get_all, merge_items, moves_too_far, subscribe, update, notify,
}
use algorithmic_trading_simu.Market.Merge.{AllSane, merge_all, merge_all-AllSane}
use algorithmic_trading_simu.Market.Frozen.{refused_forever}
use algorithmic_trading_simu.Market.Quotes.{Table, find}
use algorithmic_trading_simu.Market.Store.{
  last_seen, Call, updating, subscribing, call, calls, calls-seen,
}

-- No text is read as a number.
abbrev convert : Value → Number
convert v = nan

-- A tick of ACME at n cents.
abbrev tick : ℕ → Value
tick n = object (field "symbol" (string "ACME") (field "price" (number (finite (pos n))) end))

abbrev hook : Hook
hook = record { buffer = []; last_update = 0; mounted = true; shown = [] }

abbrev packets : List Value
packets = array (cons (tick 10000) (cons (tick 0) nil)) ∷ array (cons (tick 12000) nil) ∷ []

merge_all-AllSane_example : AllSane convert (merge_all convert packets hook).buffer
unfolding find lookup owns
merge_all-AllSane_example = merge_all-AllSane convert packets hook refl (λ s. inl refl)

-- A buffer that holds ACME at 100 dollars.
abbrev held : Table
held =
    ("ACME", field "symbol" (string "ACME") (field "price" (number (finite (pos 10000))) end)) ∷ []

abbrev crash : Items
crash = cons (tick 6000) (cons (tick 6010) (cons (tick 5990) nil))

refused_forever_example :
    to_number convert (lookup "price" (find "ACME" (merge_items convert crash held)))
    ≡ finite (pos 10000)
unfolding find lookup owns moves_too_far
refused_forever_example = refused_forever convert "ACME" (pos 10000) crash held refl refl refl refl

abbrev watch : List Call
watch = subscribing 1 ∷ updating 5 "ACME" (tick 10000) ∷ []

calls-seen_example : last_seen 1 [] (calls watch empty).seen ≡ get_all (calls watch empty)
unfolding calls call subscribe update notify has add
calls-seen_example = calls-seen watch 1 refl
