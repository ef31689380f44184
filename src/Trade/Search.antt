-- ===== src/Trade/Search.antt =====
-- components/trading/SymbolSearch.jsx, over utils/stockSymbols.js. `toUpperCase` is a parameter.
use text.Mathlib.Text.{starts_with}
use algorithmic_trading_simu.Prelude.{
  ◌≤◌, ◌≡◌, refl, Bool, true, false, not, ◌&&◌, String, str_eq, List, [], ◌∷◌, length, take, select,
  length-take-le, if◌then◌else◌, ltb, arith, ℕ, zero, suc,
}
use algorithmic_trading_simu.Prelude.Sorting.{some_of}

abbrev stock_symbols : List String
stock_symbols =
    "AAPL" ∷ "TSLA" ∷ "MSFT" ∷ "NVDA" ∷ "AMZN" ∷ "GOOGL" ∷ "META" ∷ "NFLX" ∷ "AMD" ∷ "INTC" ∷ "UBER"
    ∷ []

record Search : Type 0 where
  pub query : String
  pub results : List String
  pub is_open : Bool

-- The state after a handler, and the symbols that `onChange` was called with.
abbrev Change : Type 0
Change = Search × List String

unfoldable handle_change : (String → String) → String → Search → Change
handle_change upper text s =
    let val = upper text in
    if str_eq val ""
    then (record { query = val; results = take 10 stock_symbols; is_open = true }, val ∷ [])
    else (
      record {
        query = val;
        results = take 10 (select (λ symbol. starts_with symbol val) stock_symbols);
        is_open = true;
      },
      val ∷ [],
    )

unfoldable toggle_dropdown : Search → Change
toggle_dropdown s =
    if s.is_open
    then (record s { is_open = false }, [])
    else (record s { results = take 10 stock_symbols; is_open = true }, [])

unfoldable select_symbol : String → Search → Change
select_symbol symbol s = (record s { query = symbol; is_open = false }, symbol ∷ [])

-- The list below the input.
abbrev shown : Search → List String
shown s = if s.is_open && ltb 0 (length s.results) then s.results else []

unmatched-select :
    (p : String → Bool) (n : ℕ) (xs : List String)
    → some_of (λ x. not (p x)) (take n (select p xs)) ≡ false
unmatched-select p zero xs = refl
unmatched-select p (suc n) [] = refl
unmatched-select p (suc n) (x ∷ xs) =
    ground (arith, unmatched-select p n xs, unmatched-select p (suc n) xs)

-- After an entry that is not empty, at most 10 symbols are shown, and each starts with it.
handle_change-results :
    (upper : String → String) (text : String) (s : Search)
    → str_eq (upper text) "" ≡ false
    → let rs = (handle_change upper text s).0.results in
      (length rs ≤ 10) × (some_of (λ x. not (starts_with x (upper text))) rs ≡ false)
unfolding handle_change
handle_change-results upper text s h = rw (h) (
  length-take-le 10 (select (λ symbol. starts_with symbol (upper text)) stock_symbols),
  unmatched-select (λ symbol. starts_with symbol (upper text)) 10 stock_symbols,
)
