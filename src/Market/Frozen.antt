-- ===== src/Market/Frozen.antt =====
-- What the 35 percent guard of useMarket does over a sequence of ticks of one symbol.
use algorithmic_trading_simu.Prelude.{
  ◌≡◌, refl, ap, inl, inr, Bool, true, false, ◌&&◌, Option, none, some, String, str_eq, eq_iff,
  eq_refl, arith, if◌then◌else◌, Bool-cases,
}
use algorithmic_trading_simu.Prelude.Int.{ℤ}
use algorithmic_trading_simu.Js.{
  Number, finite, infinity, neg_infinity, nan, Value, Items, Fields, undefined, null, bool, array,
  number, string, object, nil, cons, is_positive, opt_get, lookup, insert, spread, fields_of,
  to_number,
}
use algorithmic_trading_simu.Js.Spread.{
  lookup-insert, owns-insert, distinct, distinct-insert, lookup-spread,
}
use algorithmic_trading_simu.Market.{
  symbol_of, moves_too_far, verdict, guard_item, merge_item, merge_items,
}
use algorithmic_trading_simu.Market.Merge.{well_formed}
use algorithmic_trading_simu.Market.Quotes.{Table, find, store, find-store}

-- A tick that the guard refuses while the price is p: no finite number above 0, or more than 35
-- percent away from p.
abbrev pub refused : ℤ → Number → Bool
refused p (finite n) = if is_positive (finite n) then moves_too_far n p else true
refused p _ = true

-- The three tests of the guard, where the old price is good and the tick is refused.
restoring :
    (new_good old_good far : Bool) (v : Option Value)
    → old_good ≡ true
    → (if new_good then far else true) ≡ true
    → (if new_good && old_good then if far then v else none else if new_good then none else v) ≡ v
restoring new_good old_good far v h r = ground arith

module _ (convert : Value → Number) (s : String) (p : ℤ) where
  -- Every item of the symbol s is refused.
  abbrev pub all_refused : Items → Bool
  all_refused nil = true
  all_refused (cons item items) =
      (elim (symbol_of item) [
        | none ↦ true
        | some u ↦ if str_eq u s then refused p (to_number convert (opt_get "price" item)) else true
      ])
      && all_refused items

  abbrev pub PriceIs : Table → Type 0
  PriceIs t = to_number convert (lookup "price" (find s t)) ≡ finite p

  verdict-refused :
      (next : Number)
      → is_positive (finite p) ≡ true
      → refused p next ≡ true
      → verdict next (finite p) ≡ some (number (finite p))
  unfolding verdict
  verdict-refused (finite n) good r =
      restoring (is_positive (finite n)) (is_positive (finite p)) (moves_too_far n p)
        (some (number (finite p))) good r
  verdict-refused infinity good r = refl
  verdict-refused neg_infinity good r = refl
  verdict-refused nan good r = refl

  guard_restores :
      (fs : Fields) (next prev : Number)
      → verdict next prev ≡ some (number (finite p))
      → guard_item next prev fs ≡ insert "price" (number (finite p)) fs
  unfolding guard_item
  guard_restores fs next prev v = ap (λ o. elim o [ none ↦ fs | some w ↦ insert "price" w fs ]) v

  restored :
      (fs : Fields) (t : Table) (next prev : Number)
      → distinct fs ≡ true
      → verdict next prev ≡ some (number (finite p))
      → PriceIs (store s (spread (find s t) (guard_item next prev fs)) t)
  restored fs t next prev d v =
      let old : Value = number (finite p) in
      let set = insert "price" old fs in
      rw
        (
          guard_restores fs next prev v,
          find-store s s (spread (find s t) set) t,
          eq_refl s,
          lookup-spread "price" (find s t) set (distinct-insert "price" old fs d),
          owns-insert "price" "price" old fs,
          lookup-insert "price" "price" old fs,
        )
        (refl)

  same_symbol :
      (u : String) (fs : Fields) (t : Table)
      → u ≡ s
      → distinct fs ≡ true
      → is_positive (finite p) ≡ true
      → refused p (to_number convert (lookup "price" fs)) ≡ true
      → PriceIs t
      → PriceIs (
          store u
            (spread (find u t) (
              guard_item
                (to_number convert (lookup "price" fs))
                (to_number convert (lookup "price" (find u t)))
                fs))
            t)
  same_symbol u fs t e d good r is_p =
      let next = to_number convert (lookup "price" fs) in
      rw (e) (restored fs t next _ d (rw (is_p) (verdict-refused next good r)))

  other_symbol :
      (u : String) (q : Fields) (t : Table) → str_eq u s ≡ false → PriceIs t → PriceIs (store u q t)
  other_symbol u q t h is_p = rw (find-store u s q t, h) (is_p)

  merged_refused :
      (symbol : Option String) (fs : Fields) (t : Table)
      → distinct fs ≡ true
      → is_positive (finite p) ≡ true
      → (elim symbol [
        | none ↦ true
        | some u ↦ if str_eq u s then refused p (to_number convert (lookup "price" fs)) else true
      ])
        ≡ true
      → PriceIs t
      → PriceIs (elim symbol [
        | none ↦ t
        | some u ↦
            store u
              (spread (find u t) (
                guard_item
                  (to_number convert (lookup "price" fs))
                  (to_number convert (lookup "price" (find u t)))
                  fs))
              t
      ])
  merged_refused none fs t d good r is_p = is_p
  merged_refused (some u) fs t d good r is_p = elim (Bool-cases (str_eq u s)) [
    | inl e ↦ same_symbol u fs t (ground (arith, eq_iff u s)) d good (ground arith) is_p
    | inr e ↦ other_symbol u _ t e is_p
  ]

  merge_item_refused :
      (item : Value) (t : Table)
      → distinct (fields_of item) ≡ true
      → is_positive (finite p) ≡ true
      → all_refused (cons item nil) ≡ true
      → PriceIs t
      → PriceIs (merge_item convert item t)
  unfolding merge_item
  merge_item_refused (object fs) t d good r is_p =
      merged_refused (symbol_of (object fs)) fs t d good (ground arith) is_p
  merge_item_refused undefined t d good r is_p = is_p
  merge_item_refused null t d good r is_p = is_p
  merge_item_refused (bool b) t d good r is_p = is_p
  merge_item_refused (number n) t d good r is_p = is_p
  merge_item_refused (string u) t d good r is_p = is_p
  merge_item_refused (array items) t d good r is_p = is_p

-- While every tick of the symbol s is refused at the price p, a finite number above 0 that the
-- buffer holds for s, the price of s stays p, however many packets arrive.
pub refused_forever :
    (convert : Value → Number) (s : String) (p : ℤ) (items : Items) (t : Table)
    → well_formed items ≡ true
    → is_positive (finite p) ≡ true
    → all_refused convert s p items ≡ true
    → to_number convert (lookup "price" (find s t)) ≡ finite p
    → to_number convert (lookup "price" (find s (merge_items convert items t))) ≡ finite p
unfolding merge_items
refused_forever convert s p nil t w good r is_p = is_p
refused_forever convert s p (cons item items) t w good r is_p =
    refused_forever convert s p items (merge_item convert item t) (ground arith) good (ground arith)
      (merge_item_refused convert s p item t (ground arith) good (ground arith) is_p)
