-- ===== src/Market/Quotes.antt =====
-- A table from symbols to quotes, as a `Map` or an object keeps it: in the order of first insertion.
use algorithmic_trading_simu.Prelude.{
  ◌≡◌, refl, String, str_eq, eq_iff, List, [], ◌∷◌, if◌then◌else◌, arith,
}
use algorithmic_trading_simu.Js.{Fields, end}

abbrev pub Table : Type 0
Table = List (String × Fields)

-- `table.get(symbol) || {}`.
unfoldable pub find : String → Table → Fields
find s [] = end
find s ((u, q) ∷ rest) = if str_eq u s then q else find s rest

unfoldable pub store : String → Fields → Table → Table
store s q [] = (s, q) ∷ []
store s q ((u, w) ∷ rest) = if str_eq u s then (s, q) ∷ rest else (u, w) ∷ store s q rest

pub find-store :
    (s u : String) (q : Fields) (t : Table)
    → find u (store s q t) ≡ (if str_eq s u then q else find u t)
unfolding find store
find-store s u q [] = refl
find-store s u q ((v, w) ∷ t) =
    ground (arith, eq_iff s u, eq_iff v s, eq_iff v u, find-store s u q t)
