-- ===== src/Holdings/Actions.antt =====
-- What pages/Portfolio.jsx shows, and its two buttons. The page's calls of `refresh` are fetches of
-- the hook usePortfolio, which never reject.
use algorithmic_trading_simu.Prelude.{
  ◌≡◌, ◌∙◌, refl, Bool, true, false, ◌&&◌, Option, none, some, String, List, [], ◌∷◌, ◌++◌,
  if◌then◌else◌, arith, Bool-cases, inl, inr,
}
use algorithmic_trading_simu.Prelude.Int.{ℤ}
use algorithmic_trading_simu.Js.{Number, Value, Items, nil, cons, Fields, truthy}
use algorithmic_trading_simu.Auth.{Reply, replied, failed}
use algorithmic_trading_simu.Market.Quotes.{Table}
use algorithmic_trading_simu.Portfolio.{Hook, fetch_portfolio, answer}
use algorithmic_trading_simu.Holdings.{
  Row, Snapshots, Totals, array_or_empty, market_map, merge_row, merge_rows, totals, selected,
  selected_or, same_symbol,
}

-- The hook, the page's own state, and the toasts that it made.
pub record Page : Type 0 where
  pub hook : Hook
  pub market : List Fields
  pub snapshots : Snapshots
  pub selected_symbol : Option String
  pub busy : Bool
  pub toasts : List String

pub data View : Type 0 where
  loading_spinner no_positions : View
  error_message : Value → View
  content : Totals → List Row → Option Row → View

unfoldable pub rows_of : (Value → Number) → (ℤ → ℤ → Number) → Page → List Row
rows_of convert percent p =
    merge_rows convert percent (market_map p.market []) p.snapshots
      (array_or_empty p.hook.portfolio.positions)

abbrev pub is_empty : Items → Bool
is_empty nil = true
is_empty (cons v vs) = false

unfoldable pub render : (Value → Number) → (ℤ → ℤ → Number) → Page → View
unfolding rows_of
render convert percent p =
    let positions = array_or_empty p.hook.portfolio.positions in
    if p.hook.loading && is_empty positions
    then loading_spinner
    else if truthy p.hook.error
    then error_message p.hook.error
    else if is_empty positions
    then no_positions
    else content (totals convert percent p.hook.portfolio (rows_of convert percent p))
        (rows_of convert percent p) (selected p.selected_symbol (rows_of convert percent p))

-- `handleRefresh`, up to its `await` and after the answer of its fetch.
unfoldable pub begin_refresh : Page → Page
begin_refresh p = record p { busy = true; hook = fetch_portfolio p.hook }

unfoldable pub end_refresh : (Value → Number) → Reply → Page → Page
end_refresh convert r p = record p { hook = answer convert r p.hook; busy = false }

-- `handleReset`: the user's choice in the dialog, the answer of /account/reset, and the answer of the
-- fetch that follows it.
unfoldable pub begin_reset : Bool → Page → Page
begin_reset confirmed p = if confirmed then record p { busy = true } else p

unfoldable pub reset_answer : Reply → Page → Page
reset_answer (failed err) p = record p { busy = false; toasts = p.toasts ++ "Reset failed" ∷ [] }
reset_answer (replied d) p = record p { selected_symbol = none; hook = fetch_portfolio p.hook }

unfoldable pub end_reset : (Value → Number) → Reply → Page → Page
end_reset convert r p = record p {
  hook = answer convert r p.hook;
  toasts = p.toasts ++ "Account reset to starting balance" ∷ [];
  busy = false;
}

-- `r` is one of the rows.
pub data IsRow (r : Row) : List Row → Type 0 where
  here : {rs : List Row} → IsRow r (r ∷ rs)
  there : {s : Row} {rs : List Row} → IsRow r rs → IsRow r (s ∷ rs)

selected_or-IsRow :
    (default : Row) (s : Option String) (all rows : List Row)
    → IsRow default all
    → ((r : Row) → IsRow r rows → IsRow r all)
    → IsRow (selected_or default s rows) all
unfolding selected_or
selected_or-IsRow default s all [] d sub = d
selected_or-IsRow default s all (r ∷ rows) d sub = elim (Bool-cases (same_symbol r.symbol s)) [
  | inl e ↦ rw (e) (sub r here)
  | inr e ↦ rw (e) (selected_or-IsRow default s all rows d (λ q h. sub q (there h)))
]

selected-IsRow :
    (s : Option String) (r : Row) (rs : List Row)
    → (q : Row) × (selected s (r ∷ rs) ≡ some q) × IsRow q (r ∷ rs)
unfolding selected
selected-IsRow s r rs =
    (selected_or r s (r ∷ rs), refl, selected_or-IsRow r s (r ∷ rs) (r ∷ rs) here (λ q h. h))

content_selected :
    (a b c : Bool) (e : Value) (t u : Totals) (rows shown : List Row) (sel chosen : Option Row)
    → (if a
        then loading_spinner
        else if b
        then error_message e
        else if c
        then no_positions
        else content t rows sel)
      ≡ content u shown chosen
    → (c ≡ false) × (shown ≡ rows) × (chosen ≡ sel)
content_selected a b c e t u rows shown sel chosen h = ground arith

merged-IsRow :
    (convert : Value → Number) (percent : ℤ → ℤ → Number) (live : Table) (snap : Snapshots)
    (s : Option String) (ps : Items)
    → is_empty ps ≡ false
    → let rows = merge_rows convert percent live snap ps in
      (q : Row) × (selected s rows ≡ some q) × IsRow q rows
unfolding merge_rows
merged-IsRow convert percent live snap s nil e = absurd (ground arith)
merged-IsRow convert percent live snap s (cons p ps) e =
    selected-IsRow s (merge_row convert percent live snap p)
      (merge_rows convert percent live snap ps)

-- Whenever the page shows its table, the details panel beside it gets a position, and it is one of the
-- rows of the table.
render-content :
    (convert : Value → Number) (percent : ℤ → ℤ → Number) (p : Page) (t : Totals) (rows : List Row)
    (chosen : Option Row)
    → render convert percent p ≡ content t rows chosen
    → (r : Row) × (chosen ≡ some r) × IsRow r rows
unfolding render rows_of
render-content convert percent p t rows chosen h =
    let positions = array_or_empty p.hook.portfolio.positions in
    let all = rows_of convert percent p in
    let (some_held, same_rows, same_choice) =
      content_selected (p.hook.loading && is_empty positions) (truthy p.hook.error)
        (is_empty positions) p.hook.error (totals convert percent p.hook.portfolio all) t all rows
        (selected p.selected_symbol all) chosen h in
    let (q, found, among) =
      merged-IsRow convert percent (market_map p.market []) p.snapshots p.selected_symbol positions
        some_held in
    (q, same_choice ∙ found, rw (same_rows) among)
