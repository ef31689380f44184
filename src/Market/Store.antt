-- ===== src/Market/Store.antt =====
-- The store of quotes: what its subscribers have seen.
use algorithmic_trading_simu.Prelude.{
  ℕ, ◌+◌, ◌≡◌, refl, true, Option, none, some, String, List, [], ◌∷◌, ◌++◌, map, arith,
  if◌then◌else◌, ◌==◌,
}
use algorithmic_trading_simu.Prelude.Keys.{has, has-add, delete-has}
use algorithmic_trading_simu.Js.{
  Value, Items, Fields, undefined, null, bool, number, string, object, array, nil, cons, finite,
  insert, spread, fields_of,
}
use algorithmic_trading_simu.Prelude.Int.{pos}
use algorithmic_trading_simu.Market.Quotes.{find, store}
use algorithmic_trading_simu.Market.{
  MarketStore, empty, get_all, notify, update, update_each, bulk_update, subscribe, unsubscribe,
  clear, symbol_of,
}

-- The last snapshot that the subscriber c was called with, or `before`.
abbrev pub last_seen : ℕ → List Fields → List (ℕ × List Fields) → List Fields
last_seen c before [] = before
last_seen c before ((d, snapshot) ∷ rest) = last_seen c (if d == c then snapshot else before) rest

-- The calls of a store's interface, in the order in which a page makes them.
pub data Call : Type 0 where
  updating : ℕ → String → Value → Call
  bulk_updating : (ℕ → ℕ) → Value → Call
  subscribing unsubscribing : ℕ → Call
  clearing : Call

unfoldable pub call : Call → MarketStore → MarketStore
call (updating now s v) m = update now s v m
call (bulk_updating clock v) m = bulk_update clock v m
call (subscribing c) m = subscribe c m
call (unsubscribing c) m = unsubscribe c m
call clearing m = clear m

unfoldable pub calls : List Call → MarketStore → MarketStore
unfolding call
calls [] m = m
calls (c ∷ cs) m = calls cs (call c m)

-- Every subscriber has been shown the quotes that the store holds now.
abbrev pub IsShown : MarketStore → Type 0
IsShown m = (c : ℕ) → has c m.subscribers ≡ true → last_seen c [] m.seen ≡ get_all m

last_seen-append :
    (c : ℕ) (b : List Fields) (xs ys : List (ℕ × List Fields))
    → last_seen c b (xs ++ ys) ≡ last_seen c (last_seen c b xs) ys
last_seen-append c b [] ys = refl
last_seen-append c b ((d, q) ∷ xs) ys = last_seen-append c (if d == c then q else b) xs ys

last_seen-all :
    (c : ℕ) (b q : List Fields) (subscribers : List ℕ)
    → last_seen c b (map (λ d. (d, q)) subscribers) ≡ (if has c subscribers then q else b)
unfolding has
last_seen-all c b q [] = refl
last_seen-all c b q (d ∷ ds) = ground (arith, last_seen-all c (if d == c then q else b) q ds)

notify-IsShown : (m : MarketStore) → IsShown (notify m)
unfolding notify get_all
notify-IsShown m c h =
    rw
      (
        last_seen-append c [] m.seen (map (λ d. (d, get_all m)) m.subscribers),
        last_seen-all c (last_seen c [] m.seen) (get_all m) m.subscribers,
        h,
      )
      (refl)

update-IsShown : (now : ℕ) (s : String) (v : Value) (m : MarketStore) → IsShown (update now s v m)
unfolding update
update-IsShown now s v m = notify-IsShown (record m {
  quotes =
      store s
        (insert "lastUpdate" (number (finite (pos now))) (spread (find s m.quotes) (fields_of v)))
        m.quotes;
})

offered-IsShown :
    (now : ℕ) (symbol : Option String) (v : Value) (m : MarketStore)
    → IsShown m
    → IsShown (elim symbol [ none ↦ m | some s ↦ update now s v m ])
offered-IsShown now none v m shown = shown
offered-IsShown now (some s) v m shown = update-IsShown now s v m

update_each-IsShown :
    (clock : ℕ → ℕ) (items : Items) (m : MarketStore)
    → IsShown m
    → IsShown (update_each clock items m)
unfolding update_each
update_each-IsShown clock nil m shown = shown
update_each-IsShown clock (cons item items) m shown =
    update_each-IsShown (λ n. clock (n + 1)) items _
      (offered-IsShown (clock 0) (symbol_of item) item m shown)

bulk_update-IsShown :
    (clock : ℕ → ℕ) (v : Value) (m : MarketStore) → IsShown m → IsShown (bulk_update clock v m)
unfolding bulk_update
bulk_update-IsShown clock (array items) m shown = update_each-IsShown clock items m shown
bulk_update-IsShown clock undefined m shown = shown
bulk_update-IsShown clock null m shown = shown
bulk_update-IsShown clock (bool b) m shown = shown
bulk_update-IsShown clock (number n) m shown = shown
bulk_update-IsShown clock (string s) m shown = shown
bulk_update-IsShown clock (object fs) m shown = shown

subscribe-IsShown : (d : ℕ) (m : MarketStore) → IsShown m → IsShown (subscribe d m)
unfolding subscribe get_all
subscribe-IsShown d m shown c h =
    rw (last_seen-append c [] m.seen ((d, get_all m) ∷ []))
      (ground (arith, has-add c d m.subscribers, shown c))

unsubscribe-IsShown : (d : ℕ) (m : MarketStore) → IsShown m → IsShown (unsubscribe d m)
unfolding unsubscribe get_all
unsubscribe-IsShown d m shown c h = shown c (delete-has c d m.subscribers h)

call-IsShown : (c : Call) (m : MarketStore) → IsShown m → IsShown (call c m)
unfolding call clear
call-IsShown (updating now s v) m shown = update-IsShown now s v m
call-IsShown (bulk_updating clock v) m shown = bulk_update-IsShown clock v m shown
call-IsShown (subscribing d) m shown = subscribe-IsShown d m shown
call-IsShown (unsubscribing d) m shown = unsubscribe-IsShown d m shown
call-IsShown clearing m shown = notify-IsShown (record m { quotes = [] })

calls-IsShown : (cs : List Call) (m : MarketStore) → IsShown m → IsShown (calls cs m)
unfolding calls
calls-IsShown [] m shown = shown
calls-IsShown (c ∷ cs) m shown = calls-IsShown cs (call c m) (call-IsShown c m shown)

empty-IsShown : IsShown empty
unfolding get_all
empty-IsShown c h = refl

-- After any calls of a new store, in any order, the last snapshot that a present subscriber was
-- called with is what the store holds now.
pub calls-seen :
    (cs : List Call) (c : ℕ)
    → has c (calls cs empty).subscribers ≡ true
    → last_seen c [] (calls cs empty).seen ≡ get_all (calls cs empty)
calls-seen cs c h = calls-IsShown cs empty empty-IsShown c h
