-- ===== src/Market/Merge.antt =====
-- The invariant of useMarket's buffer under every sequence of price packets.
use algorithmic_trading_simu.Prelude.{
  ◌≡◌, sym, ◌∙◌, inl, inr, Bool, true, ◌&&◌, Option, none, some, String, str_eq, List, [], ◌∷◌,
  arith, Bool-cases,
}
use algorithmic_trading_simu.Prelude.Int.{ℤ}
use algorithmic_trading_simu.Js.{
  Number, finite, Value, Items, Fields, undefined, null, bool, array, number, string, object, nil,
  cons, is_positive, lookup, owns, insert, spread, fields_of, to_number,
}
use algorithmic_trading_simu.Js.Spread.{
  lookup-insert, owns-insert, distinct, distinct-insert, lookup-spread,
}
use algorithmic_trading_simu.Market.{
  Hook, symbol_of, verdict, guard_item, merge_item, merge_items, merge_updates, updates_of,
}
use algorithmic_trading_simu.Market.Guard.{IsSane, Judged, verdict-Judged}
use algorithmic_trading_simu.Market.Quotes.{Table, find, store, find-store}

-- Every item of a packet names each of its properties once, as parsed JSON does.
abbrev pub well_formed : Items → Bool
well_formed nil = true
well_formed (cons item items) = distinct (fields_of item) && well_formed items

abbrev pub AllSane : (Value → Number) → Table → Type 0
AllSane convert t = (s : String) → IsSane convert (lookup "price" (find s t))

module _ (convert : Value → Number) where
  old_price-IsSane :
      (v : Value) (p : ℤ)
      → IsSane convert v
      → to_number convert v ≡ finite p
      → IsSane convert (number (finite p))
  old_price-IsSane v p (inl missing) h = cc
  old_price-IsSane v p (inr (n, is_n, good)) h = inr (n, sym h ∙ is_n, good)

  kept_price-IsSane :
      (prev fs : Fields) (n : ℤ)
      → distinct fs ≡ true
      → IsSane convert (lookup "price" prev)
      → to_number convert (lookup "price" fs) ≡ finite n
      → is_positive (finite n) ≡ true
      → IsSane convert (lookup "price" (spread prev fs))
  kept_price-IsSane prev fs n d old is_n good =
      rw (lookup-spread "price" prev fs d) (elim (Bool-cases (owns "price" fs)) [
        | inl e ↦ rw (e) (inr (n, is_n, good))
        | inr e ↦ rw (e) (old)
      ])

  set_price-IsSane :
      (prev fs : Fields) (v : Value)
      → distinct fs ≡ true
      → IsSane convert v
      → IsSane convert (lookup "price" (spread prev (insert "price" v fs)))
  set_price-IsSane prev fs v d sane =
      rw
        (
          lookup-spread "price" prev (insert "price" v fs) (distinct-insert "price" v fs d),
          owns-insert "price" "price" v fs,
          lookup-insert "price" "price" v fs,
        )
        (sane)

  Judged-IsSane :
      (prev fs : Fields) (o : Option Value)
      → distinct fs ≡ true
      → IsSane convert (lookup "price" prev)
      → Judged (to_number convert (lookup "price" fs)) (to_number convert (lookup "price" prev)) o
      → IsSane convert
          (lookup "price" (spread prev (elim o [ none ↦ fs | some v ↦ insert "price" v fs ])))
  Judged-IsSane prev fs none d old (n, is_n, good) = kept_price-IsSane prev fs n d old is_n good
  Judged-IsSane prev fs (some v) d old (inl missing) = set_price-IsSane prev fs v d (inl missing)
  Judged-IsSane prev fs (some v) d old (inr (p, is_p, prev_p)) =
      set_price-IsSane prev fs v d (rw (is_p) (old_price-IsSane (lookup "price" prev) p old prev_p))

  stored_sane :
      (t : Table) (s : String) (q : Fields)
      → AllSane convert t
      → IsSane convert (lookup "price" q)
      → AllSane convert (store s q t)
  stored_sane t s q sane new u =
      rw (find-store s u q t)
        (elim (Bool-cases (str_eq s u)) [ inl e ↦ rw (e) (new) | inr e ↦ rw (e) (sane u) ])

  -- The item is stored under the symbol that it names, if any.
  merged_sane :
      (symbol : Option String) (fs : Fields) (t : Table)
      → distinct fs ≡ true
      → AllSane convert t
      → AllSane convert (elim symbol [
        | none ↦ t
        | some s ↦
            store s
              (spread (find s t) (
                guard_item
                  (to_number convert (lookup "price" fs))
                  (to_number convert (lookup "price" (find s t)))
                  fs))
              t
      ])
  unfolding guard_item
  merged_sane none fs t d sane = sane
  merged_sane (some s) fs t d sane =
      let next = to_number convert (lookup "price" fs) in
      let prev = to_number convert (lookup "price" (find s t)) in
      stored_sane t s _ sane
        (Judged-IsSane (find s t) fs (verdict next prev) d (sane s) (verdict-Judged next prev))

  merge_item-AllSane :
      (item : Value) (t : Table)
      → distinct (fields_of item) ≡ true
      → AllSane convert t
      → AllSane convert (merge_item convert item t)
  unfolding merge_item guard_item
  merge_item-AllSane (object fs) t d sane = merged_sane (symbol_of (object fs)) fs t d sane
  merge_item-AllSane undefined t d sane = sane
  merge_item-AllSane null t d sane = sane
  merge_item-AllSane (bool b) t d sane = sane
  merge_item-AllSane (number n) t d sane = sane
  merge_item-AllSane (string s) t d sane = sane
  merge_item-AllSane (array items) t d sane = sane

  merge_items-AllSane :
      (items : Items) (t : Table)
      → well_formed items ≡ true
      → AllSane convert t
      → AllSane convert (merge_items convert items t)
  unfolding merge_items
  merge_items-AllSane nil t w sane = sane
  merge_items-AllSane (cons item items) t w sane =
      merge_items-AllSane items (merge_item convert item t) (ground arith)
        (merge_item-AllSane item t (ground arith) sane)

-- The packets that a hook gets from its subscriptions, in order.
abbrev pub merge_all : (Value → Number) → List Value → Hook → Hook
merge_all convert [] h = h
merge_all convert (payload ∷ payloads) h =
    merge_all convert payloads (merge_updates convert payload h)

abbrev pub all_well_formed : List Value → Bool
all_well_formed [] = true
all_well_formed (payload ∷ payloads) = well_formed (updates_of payload) && all_well_formed payloads

-- Whatever well-formed packets arrive, in whatever order, every price that the buffer holds is
-- missing or a value that `Number()` reads as a finite number above 0 (a number, or a text or another
-- value that reads as one), if this was so before them.
pub merge_all-AllSane :
    (convert : Value → Number) (payloads : List Value) (h : Hook)
    → all_well_formed payloads ≡ true
    → AllSane convert h.buffer
    → AllSane convert (merge_all convert payloads h).buffer
unfolding merge_updates
merge_all-AllSane convert [] h w sane = sane
merge_all-AllSane convert (payload ∷ payloads) h w sane =
    merge_all-AllSane convert payloads (merge_updates convert payload h) (ground arith)
      (merge_items-AllSane convert (updates_of payload) h.buffer (ground arith) sane)
