-- ===== src/Research/Sentiment.antt =====
-- pages/Sentiment.jsx: the symbol, the text, and the requests. There is no timer: a choice of a symbol
-- asks at once, also while an answer is due, and the button is off then.
use algorithmic_trading_simu.Prelude.{
  ◌≡◌, ap, Option, none, some, map_option, String, str_eq, List, [], ◌∷◌, if◌then◌else◌, Bool-cases,
  inl, inr,
}
use algorithmic_trading_simu.Auth.{Reply}
use algorithmic_trading_simu.Research.{
  Fetch, status_error, data_of, mounted, ask, settle, latest, latest-append,
}

-- A request has the symbol, and the text unless it is empty.
pub record Sentiment : Type 0 where
  pub symbol : String
  pub text : String
  pub fetch : Fetch (String × Option String)

-- `run`, up to its `await`.
unfoldable pub run_request : String → String → Sentiment → Sentiment
unfolding ask
run_request sym txt s = record s {
  fetch = ask (sym, if str_eq txt "" then none else some txt) s.fetch;
}

unfoldable pub mount : Sentiment
unfolding run_request
mount = run_request "AAPL" "" (record { symbol = "AAPL"; text = ""; fetch = mounted })

unfoldable pub on_symbol : String → Sentiment → Sentiment
unfolding run_request
on_symbol v s = run_request v "" (record s { symbol = v; text = "" })

unfoldable pub click : Sentiment → Sentiment
unfolding run_request
click s = if s.fetch.loading then s else run_request s.symbol s.text s

-- The rest of `run`.
unfoldable pub answer : Reply → Sentiment → Sentiment
unfolding settle
answer r s = record s { fetch = settle (data_of status_error r) s.fetch }

pub data Event : Type 0 where
  chooses writes : String → Event
  clicks : Event
  answers : Reply → Event

unfoldable pub step : Sentiment → Event → Sentiment
step s (chooses v) = on_symbol v s
step s (writes t) = record s { text = t }
step s clicks = click s
step s (answers r) = answer r s

abbrev pub run : Sentiment → List Event → Sentiment
run s [] = s
run s (e ∷ es) = run (step s e) es

abbrev symbol_asked : Sentiment → Option String
symbol_asked s = map_option (λ a. a.0) (latest s.fetch.sent)

run_request-asked :
    (sym txt : String) (s : Sentiment) → symbol_asked (run_request sym txt s) ≡ some sym
unfolding run_request ask
run_request-asked sym txt s =
    ap (map_option (λ a. a.0))
      (latest-append s.fetch.sent (sym, if str_eq txt "" then none else some txt))

step-asked :
    (s : Sentiment) (e : Event)
    → symbol_asked s ≡ some s.symbol
    → symbol_asked (step s e) ≡ some (step s e).symbol
unfolding step on_symbol click answer settle
step-asked s (chooses v) h = run_request-asked v "" (record s { symbol = v; text = "" })
step-asked s (writes t) h = h
step-asked s clicks h = elim (Bool-cases s.fetch.loading) [
  | inl e ↦ simp (e) h
  | inr e ↦ simp (e) (run_request-asked s.symbol s.text s)
]
step-asked s (answers r) h = h

-- Whatever the user does and the server answers, the last request is one for the symbol that is
-- chosen.
run-asked_symbol : (es : List Event) → symbol_asked (run mount es) ≡ some (run mount es).symbol
unfolding mount
run-asked_symbol es =
    go es mount
      (run_request-asked "AAPL" "" (record { symbol = "AAPL"; text = ""; fetch = mounted }))
  where
    go :
        (es : List Event) (s : Sentiment)
        → symbol_asked s ≡ some s.symbol
        → symbol_asked (run s es) ≡ some (run s es).symbol
    go [] s h = h
    go (e ∷ es) s h = go es (step s e) (step-asked s e h)
