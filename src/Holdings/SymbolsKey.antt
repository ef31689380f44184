-- ===== src/Holdings/SymbolsKey.antt =====
-- The stable key of pages/Portfolio.jsx: the distinct symbols of the positions, sorted and joined with
-- commas; the effect that polls the quotes splits it again.
use Prim.Native.Char.{Char, code}
use Prim.Native.String.{◌++◌}
use text.Mathlib.TextLemmas.{nil-append, cons-append, append-eq-nil_iff}
use algorithmic_trading_simu.Prelude.{
  ◌≡◌, refl, ap, ◌∙◌, Bool, true, false, not, ◌&&◌, ◌||◌, none, some, String, str_eq, eq_iff, List,
  [], ◌∷◌, select, if◌then◌else◌, ◌==◌, arith, Bool-cases, inl, inr,
}
use algorithmic_trading_simu.Prelude.Sorting.{sort, some_of, some_of-sort}
use algorithmic_trading_simu.Js.{Items, nil, cons}
use algorithmic_trading_simu.Market.{symbol_of}

-- `positions.map((p) => p.symbol).filter(Boolean)`.
unfoldable pub symbols_of : Items → List String
symbols_of nil = []
symbols_of (cons p ps) = elim (symbol_of p) [ none ↦ symbols_of ps | some s ↦ s ∷ symbols_of ps ]

-- `[...new Set(symbols)]`: each is kept where it stands first.
unfoldable pub distinct_symbols : List String → List String
distinct_symbols [] = []
distinct_symbols (s ∷ ss) = s ∷ select (λ t. not (str_eq s t)) (distinct_symbols ss)

-- `symbols.join(",")`.
unfoldable pub join_commas : List String → String
join_commas [] = ""
join_commas (s ∷ []) = s
join_commas (s ∷ t ∷ ss) = s ++ ("," ++ join_commas (t ∷ ss))

abbrev pub push_char : Char → List String → List String
push_char c [] = String.◌∷◌ c "" ∷ []
push_char c (s ∷ ss) = String.◌∷◌ c s ∷ ss

abbrev pub is_comma : Char → Bool
is_comma c = code c == 44

-- `key.split(",")`.
unfoldable pub split_commas : String → List String
split_commas String.[] = "" ∷ []
split_commas (String.◌∷◌ c s) =
    let rest = split_commas s in if is_comma c then "" ∷ rest else push_char c rest

-- `symbolsKey`, by the order of `sort`.
unfoldable pub symbols_key : (String → String → Bool) → Items → String
unfolding symbols_of distinct_symbols join_commas
symbols_key before positions = join_commas (sort before (distinct_symbols (symbols_of positions)))

-- The symbols that the effect polls: none for an empty key.
unfoldable pub polled_symbols : String → List String
unfolding split_commas
polled_symbols key = if str_eq key "" then [] else split_commas key

abbrev pub has_comma : String → Bool
has_comma String.[] = false
has_comma (String.◌∷◌ c s) = is_comma c || has_comma s

-- A text that is not empty and has no comma.
abbrev pub is_plain : String → Bool
is_plain s = not (str_eq s "") && not (has_comma s)

abbrev pub all_plain : List String → Bool
all_plain [] = true
all_plain (s ∷ ss) = is_plain s && all_plain ss

split_commas_one : (s : String) → has_comma s ≡ false → split_commas s ≡ s ∷ []
unfolding split_commas
split_commas_one String.[] h = refl
split_commas_one (String.◌∷◌ c s) h = ground (arith, split_commas_one s)

split_commas-comma : (t : String) → split_commas ("," ++ t) ≡ "" ∷ split_commas t
unfolding split_commas
split_commas-comma t = ap split_commas (cons-append "," "" t ∙ ap (String.◌∷◌ ",") (nil-append t))

split_commas-append :
    (s t : String) → has_comma s ≡ false → split_commas (s ++ ("," ++ t)) ≡ s ∷ split_commas t
unfolding split_commas
split_commas-append String.[] t h = rw (nil-append ("," ++ t)) (split_commas-comma t)
split_commas-append (String.◌∷◌ c s) t h =
    rw (cons-append c s ("," ++ t)) (elim (Bool-cases (is_comma c)) [
      | inl e ↦ absurd (ground arith)
      | inr e ↦ rw (e, split_commas-append s t (ground arith)) refl
    ])

split_commas-join :
    (s : String) (ss : List String)
    → all_plain (s ∷ ss) ≡ true
    → split_commas (join_commas (s ∷ ss)) ≡ s ∷ ss
unfolding join_commas
split_commas-join s [] h = split_commas_one s (ground arith)
split_commas-join s (t ∷ ss) h =
    split_commas-append s (join_commas (t ∷ ss)) (ground arith)
    ∙ ap (s ∷◌) (split_commas-join t ss (ground arith))

-- Whether a list has a symbol.
abbrev pub is_among : String → List String → Bool
is_among s = some_of (λ t. str_eq t s)

is_among-select :
    (s t : String) (ss : List String)
    → is_among s (select (λ u. not (str_eq t u)) ss) ≡ (is_among s ss && not (str_eq t s))
is_among-select s t [] = refl
is_among-select s t (u ∷ ss) =
    ground (arith, eq_iff t u, eq_iff u s, eq_iff t s, is_among-select s t ss)

is_among-distinct_symbols :
    (s : String) (ss : List String) → is_among s (distinct_symbols ss) ≡ is_among s ss
unfolding distinct_symbols
is_among-distinct_symbols s [] = refl
is_among-distinct_symbols s (t ∷ ss) =
    ground (arith, is_among-select s t (distinct_symbols ss), is_among-distinct_symbols s ss)

-- A test that holds of all symbols, through the steps to the key.
is_plain_of_none :
    (ss : List String) → some_of (λ s. not (is_plain s)) ss ≡ false → all_plain ss ≡ true
is_plain_of_none [] h = refl
is_plain_of_none (s ∷ ss) h = ground (arith, is_plain_of_none ss)

none_of_plain :
    (ss : List String) → all_plain ss ≡ true → some_of (λ s. not (is_plain s)) ss ≡ false
none_of_plain [] h = refl
none_of_plain (s ∷ ss) h = ground (arith, none_of_plain ss)

all_plain-select :
    (p : String → Bool) (ss : List String) → all_plain ss ≡ true → all_plain (select p ss) ≡ true
all_plain-select p [] h = refl
all_plain-select p (s ∷ ss) h = ground (arith, all_plain-select p ss)

all_plain-distinct_symbols :
    (ss : List String) → all_plain ss ≡ true → all_plain (distinct_symbols ss) ≡ true
unfolding distinct_symbols
all_plain-distinct_symbols [] h = refl
all_plain-distinct_symbols (s ∷ ss) h = ground (
  arith,
  all_plain-select (λ t. not (str_eq s t)) (distinct_symbols ss),
  all_plain-distinct_symbols ss,
)

all_plain-sort :
    (before : String → String → Bool) (ss : List String)
    → all_plain ss ≡ true
    → all_plain (sort before ss) ≡ true
all_plain-sort before ss h =
    is_plain_of_none (sort before ss)
      (some_of-sort before (λ s. not (is_plain s)) ss ∙ none_of_plain ss h)

append_nonempty : (s x : String) → str_eq s "" ≡ false → str_eq (s ++ x) "" ≡ false
append_nonempty s x h = elim (Bool-cases (str_eq (s ++ x) "")) [
  | inl e ↦ absurd (
      ground
        (arith, eq_iff s "", ((append-eq-nil_iff {p = s} {q = x}).0 ((eq_iff (s ++ x) "").0 e)).0))
  | inr e ↦ e
]

join_nonempty :
    (s : String) (ss : List String) → is_plain s ≡ true → str_eq (join_commas (s ∷ ss)) "" ≡ false
unfolding join_commas
join_nonempty s [] h = ground arith
join_nonempty s (t ∷ ss) h = append_nonempty s ("," ++ join_commas (t ∷ ss)) (ground arith)

polled-join : (ss : List String) → all_plain ss ≡ true → polled_symbols (join_commas ss) ≡ ss
unfolding polled_symbols join_commas
polled-join [] h = refl
polled-join (s ∷ ss) h = rw (join_nonempty s ss (ground arith)) (split_commas-join s ss h)

-- The key survives the round trip: when no symbol of the positions has a comma, splitting the key
-- gives back the distinct symbols in the order of the sort; and a symbol is polled exactly if a
-- position has it.
pub polled_symbols-key :
    (before : String → String → Bool) (positions : Items)
    → all_plain (symbols_of positions) ≡ true
    → let polled = polled_symbols (symbols_key before positions) in
      (polled ≡ sort before (distinct_symbols (symbols_of positions)))
      × ((s : String) → is_among s polled ≡ is_among s (symbols_of positions))
unfolding symbols_key
polled_symbols-key before positions h =
    let ss = symbols_of positions in
    let back =
      polled-join (sort before (distinct_symbols ss))
        (all_plain-sort before (distinct_symbols ss) (all_plain-distinct_symbols ss h)) in
    (
      back,
      λ s.
          ap (is_among s) back
          ∙ some_of-sort before (λ t. str_eq t s) (distinct_symbols ss)
          ∙ is_among-distinct_symbols s ss,
    )
