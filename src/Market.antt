-- ===== src/Market.antt =====
-- Live prices: class MarketStore of store/marketStore.js and the hook hooks/useMarket.js. A quote is
-- an object of any fields. A symbol is a text: an item whose symbol is a truthy value of another
-- kind, which the backend does not send, is skipped like one without a symbol.
pub mod Quotes
pub mod Store
pub mod Guard
pub mod Merge
pub mod Frozen
pub mod Rendering
use algorithmic_trading_simu.Prelude.{
  ℕ, ◌+◌, ◌-◌, ◌*◌, Bool, true, false, not, ◌&&◌, ◌||◌, Option, none, some, String, str_eq, List,
  [], ◌∷◌, ◌++◌, map, take, length, if◌then◌else◌, ltb, leb,
}
use algorithmic_trading_simu.Prelude.Int.{ℤ, pos, negsuc, pos_part}
use algorithmic_trading_simu.Prelude.Keys.{add, delete}
use algorithmic_trading_simu.Js.{
  Number, finite, nan, Value, Items, Fields, undefined, null, number, string, array, object, nil,
  cons, end, field, is_finite, is_positive, truthy, opt_get, lookup, insert, spread, fields_of,
  to_number,
}
use Quotes.{Table, find, store}

-- `item?.symbol`, where it is truthy.
abbrev pub symbol_of : Value → Option String
symbol_of v = elim (opt_get "symbol" v) [
  | string s ↦ if str_eq s "" then none else some s
  | _ ↦ none
]

-- class MarketStore. `seen` records the snapshots that the subscribers were called with.
pub record MarketStore : Type 0 where
  pub quotes : Table
  pub subscribers : List ℕ
  pub seen : List (ℕ × List Fields)

abbrev pub empty : MarketStore
empty = record { quotes = []; subscribers = []; seen = [] }

unfoldable pub get_all : MarketStore → List Fields
get_all m = map (λ e. e.1) m.quotes

unfoldable pub notify : MarketStore → MarketStore
unfolding get_all
notify m = record m { seen = m.seen ++ map (λ c. (c, get_all m)) m.subscribers }

unfoldable pub update : ℕ → String → Value → MarketStore → MarketStore
unfolding notify
update now s payload m =
    let merged = spread (find s m.quotes) (fields_of payload) in
    notify (record m {
      quotes = store s (insert "lastUpdate" (number (finite (pos now))) merged) m.quotes;
    })

-- The loop of `bulkUpdate`, at one reading of the clock for each item.
unfoldable pub update_each : (ℕ → ℕ) → Items → MarketStore → MarketStore
update_each clock nil m = m
update_each clock (cons item items) m =
    update_each (λ n. clock (n + 1)) items
      (elim (symbol_of item) [ none ↦ m | some s ↦ update (clock 0) s item m ])

unfoldable pub bulk_update : (ℕ → ℕ) → Value → MarketStore → MarketStore
unfolding update_each
bulk_update clock (array items) m = update_each clock items m
bulk_update clock _ m = m

unfoldable pub subscribe : ℕ → MarketStore → MarketStore
unfolding get_all
subscribe c m = record m { subscribers = add c m.subscribers; seen = m.seen ++ (c, get_all m) ∷ [] }

unfoldable pub unsubscribe : ℕ → MarketStore → MarketStore
unsubscribe c m = record m { subscribers = delete c m.subscribers }

unfoldable pub clear : MarketStore → MarketStore
unfolding notify
clear m = notify (record m { quotes = [] })

-- The hook useMarket: `data` is its state, `buffer` and `last_update` are its refs.
pub record Hook : Type 0 where
  pub buffer : Table
  pub last_update : ℕ
  pub mounted : Bool
  pub shown : List Fields

abbrev pub max_symbols : ℕ
max_symbols = 200

abbrev pub update_throttle_ms : ℕ
update_throttle_ms = 100

-- `Math.abs(next - prev) / prev > 0.35`, for finite positive prices, without the division.
unfoldable pub moves_too_far : ℤ → ℤ → Bool
moves_too_far next prev =
    let n = pos_part next in let p = pos_part prev in ltb (35 * p) (100 * ((n - p) + (p - n)))

-- The price that the tick guard puts in place of an item's own, if any.
unfoldable pub verdict : Number → Number → Option Value
unfolding moves_too_far
verdict (finite n) (finite p) =
    if is_positive (finite n) && is_positive (finite p)
    then if moves_too_far n p then some (number (finite p)) else none
    else if is_positive (finite n)
    then none
    else some (number (finite p))
verdict (finite n) _ = if is_positive (finite n) then none else some undefined
verdict _ (finite p) = some (number (finite p))
verdict _ _ = some undefined

unfoldable pub guard_item : Number → Number → Fields → Fields
guard_item next prev item = elim (verdict next prev) [
  | none ↦ item
  | some v ↦ insert "price" v item
]

unfoldable pub merge_item : (Value → Number) → Value → Table → Table
unfolding guard_item
merge_item convert item t = elim (symbol_of item) [
  | none ↦ t
  | some s ↦
      let prev = find s t in
      let next_price = to_number convert (opt_get "price" item) in
      let prev_price = to_number convert (lookup "price" prev) in
      store s (spread prev (guard_item next_price prev_price (fields_of item))) t
]

unfoldable pub merge_items : (Value → Number) → Items → Table → Table
merge_items convert nil t = t
merge_items convert (cons item items) t = merge_items convert items (merge_item convert item t)

-- `Array.isArray(payload) ? payload : Array.isArray(payload?.data) ? payload.data : []`.
abbrev pub updates_of : Value → Items
updates_of (array items) = items
updates_of v = elim (opt_get "data" v) [ array items ↦ items | _ ↦ nil ]

unfoldable pub merge_updates : (Value → Number) → Value → Hook → Hook
unfolding merge_items
merge_updates convert payload h = record h {
  buffer = merge_items convert (updates_of payload) h.buffer;
}

-- `values.sort(…)`: a stable sort by `before`, which says of two quotes that the first one's symbol
-- does not come after the second's in the order of `localeCompare`.
unfoldable pub sort_in : (Fields → Fields → Bool) → Fields → List Fields → List Fields
sort_in before q [] = q ∷ []
sort_in before q (r ∷ rs) = if before q r then q ∷ r ∷ rs else r ∷ sort_in before q rs

unfoldable pub sort : (Fields → Fields → Bool) → List Fields → List Fields
unfolding sort_in
sort before [] = []
sort before (q ∷ qs) = sort_in before q (sort before qs)

-- One firing of the render interval.
unfoldable pub render_tick : (Fields → Fields → Bool) → ℕ → Hook → Hook
unfolding sort
render_tick before now h =
    if ltb (now - h.last_update) update_throttle_ms
    then h
    else if h.mounted
    then (let values = sort before (take max_symbols (map (λ e. e.1) h.buffer)) in
        record h { last_update = now; shown = if ltb 0 (length values) then values else h.shown })
    else record h { last_update = now }

-- The cleanup of the effect.
unfoldable pub unmount : Hook → Hook
unmount h = record h { mounted = false }
