-- ===== src/Ws/Dispatch/History.antt =====
-- Who listens after a history of subscriptions, and that the tables say so.
use algorithmic_trading_simu.Prelude.{
  ℕ, ◌≡◌, refl, ◌∙◌, Bool, true, false, not, ◌&&◌, Option, none, some, String, str_eq, eq_iff,
  eq_refl, sym, List, [], ◌∷◌, if◌then◌else◌, arith, ◌==◌, Bool-cases, inl, inr,
}
use mathlib.Core.Path.{subst}
use algorithmic_trading_simu.Prelude.Keys.{
  has, add, delete, is_set, has-add, has-delete, is_set-add, is_set-delete,
}
use algorithmic_trading_simu.Ws.Dispatch.{
  Registry, empty, lookup, store, subscribe, unsubscribe, subscribe_all, unsubscribe_all, clear,
  ensure, add_to, delete_from,
}

pub data Op : Type 0 where
  subscribes unsubscribes : String → ℕ → Op
  subscribes_all unsubscribes_all : ℕ → Op
  clears : Op

abbrev pub apply : Op → Registry → Registry
apply (subscribes t c) = subscribe t c
apply (unsubscribes t c) = unsubscribe t c
apply (subscribes_all c) = subscribe_all c
apply (unsubscribes_all c) = unsubscribe_all c
apply clears = clear

-- The last operation is the head.
abbrev pub after : List Op → Registry
after [] = empty
after (o ∷ os) = apply o (after os)

-- The specification: whether `c` listens to `t`, by the last operation that speaks of both.
abbrev pub listens : String → ℕ → List Op → Bool
listens t c [] = false
listens t c (subscribes u d ∷ os) = if str_eq u t && d == c then true else listens t c os
listens t c (unsubscribes u d ∷ os) = if str_eq u t && d == c then false else listens t c os
listens t c (clears ∷ os) = false
listens t c (_ ∷ os) = listens t c os

-- The same for those who listen to every packet.
abbrev pub listens_all : ℕ → List Op → Bool
listens_all c [] = false
listens_all c (subscribes_all d ∷ os) = if d == c then true else listens_all c os
listens_all c (unsubscribes_all d ∷ os) = if d == c then false else listens_all c os
listens_all c (clears ∷ os) = false
listens_all c (_ ∷ os) = listens_all c os

module _ (t : String) (s : List ℕ) where
  lookup-store_self : (m : List (String × List ℕ)) → lookup t (store t s m) ≡ some s
  unfolding lookup store
  lookup-store_self [] = ground (arith, eq_iff t t)
  lookup-store_self ((v, w) ∷ m) = ground (arith, eq_iff t t, lookup-store_self m)

  lookup-store_ne :
      (u : String) (m : List (String × List ℕ))
      → str_eq t u ≡ false
      → lookup u (store t s m) ≡ lookup u m
  unfolding lookup store
  lookup-store_ne u [] h = rw h
  lookup-store_ne u ((v, w) ∷ m) h =
      ground (arith, eq_iff t u, eq_iff v t, eq_iff v u, lookup-store_ne u m h)

-- The set that the table holds for a type, empty if it holds none.
abbrev set_of : String → List (String × List ℕ) → List ℕ
set_of t m = elim (lookup t m) [ none ↦ [] | some s ↦ s ]

module _ (t : String) (c : ℕ) (m : List (String × List ℕ)) where
  ensure_lem : (s : Option (List ℕ)) → lookup t m ≡ s → lookup t (ensure t m) ≡ some (set_of t m)
  unfolding ensure
  ensure_lem none e = ground (arith, lookup-store_self t [] m)
  ensure_lem (some s) e = ground arith

  set_of-subscribe : set_of t (add_to t c (ensure t m)) ≡ add c (set_of t m)
  unfolding add_to
  set_of-subscribe =
      let e = ensure_lem (lookup t m) refl in
      ground (arith, e, lookup-store_self t (add c (set_of t m)) (ensure t m))

  set_of-unsubscribe : set_of t (delete_from t c m) ≡ delete c (set_of t m)
  unfolding delete_from delete
  set_of-unsubscribe = go (lookup t m) refl
    where
      go :
          (s : Option (List ℕ))
          → lookup t m ≡ s
          → set_of t (delete_from t c m) ≡ delete c (set_of t m)
      go none e = ground arith
      go (some s) e = ground (arith, lookup-store_self t (delete c s) m)

  lookup-ensure_ne : (u : String) → str_eq t u ≡ false → lookup u (ensure t m) ≡ lookup u m
  unfolding ensure
  lookup-ensure_ne u h = go (lookup t m) refl
    where
      go : (s : Option (List ℕ)) → lookup t m ≡ s → lookup u (ensure t m) ≡ lookup u m
      go none e = ground (arith, lookup-store_ne t [] u m h)
      go (some s) e = ground arith

  set_of-subscribe_ne :
      (u : String) → str_eq t u ≡ false → set_of u (add_to t c (ensure t m)) ≡ set_of u m
  unfolding add_to
  set_of-subscribe_ne u h = ground (
    arith,
    ensure_lem (lookup t m) refl,
    lookup-ensure_ne u h,
    lookup-store_ne t (add c (set_of t m)) u (ensure t m) h,
  )

  set_of-unsubscribe_ne :
      (u : String) → str_eq t u ≡ false → set_of u (delete_from t c m) ≡ set_of u m
  unfolding delete_from
  set_of-unsubscribe_ne u h = go (lookup t m) refl
    where
      go : (s : Option (List ℕ)) → lookup t m ≡ s → set_of u (delete_from t c m) ≡ set_of u m
      go none e = ground arith
      go (some s) e = ground (arith, lookup-store_ne t (delete c s) u m h)

-- The table is right about one type and one callback.
abbrev Agrees : String → ℕ → List Op → Type 0
Agrees t c os =
    (is_set (set_of t (after os).listeners) ≡ true)
    × (has c (set_of t (after os).listeners) ≡ listens t c os)

forgotten : (b : Bool) {x y : Bool} → x ≡ y → (not b && x) ≡ (if b then false else y)
forgotten true e = refl
forgotten false e = e

listeners-subscribe :
    (u : String) (d : ℕ) (r : Registry)
    → (subscribe u d r).listeners ≡ add_to u d (ensure u r.listeners)
unfolding subscribe
listeners-subscribe u d r = refl

listeners-unsubscribe :
    (u : String) (d : ℕ) (r : Registry)
    → (unsubscribe u d r).listeners ≡ delete_from u d r.listeners
unfolding unsubscribe
listeners-unsubscribe u d r = refl

module _ (t : String) (c : ℕ) where
  subscribes_self : (d : ℕ) (os : List Op) → Agrees t c os → Agrees t c (subscribes t d ∷ os)
  subscribes_self d os (u, h) =
      let s = set_of t (after os).listeners in
      rw (listeners-subscribe t d (after os), set_of-subscribe t d (after os).listeners, eq_refl t)
        (is_set-add d s u, has-add c d s ∙ ground (arith, h))

  subscribes-Agrees :
      (u : String) (d : ℕ) (os : List Op) → Agrees t c os → Agrees t c (subscribes u d ∷ os)
  subscribes-Agrees u d os v = elim (Bool-cases (str_eq u t)) [
    | inl hit ↦
        subst (λ w. Agrees t c (subscribes w d ∷ os)) (sym ((eq_iff u t).0 hit))
          (subscribes_self d os v)
    | inr miss ↦
        rw
          (
            listeners-subscribe u d (after os),
            set_of-subscribe_ne u d (after os).listeners t miss,
            miss,
          )
          v
  ]

  unsubscribes_self : (d : ℕ) (os : List Op) → Agrees t c os → Agrees t c (unsubscribes t d ∷ os)
  unsubscribes_self d os (u, h) =
      let s = set_of t (after os).listeners in
      rw
        (
          listeners-unsubscribe t d (after os),
          set_of-unsubscribe t d (after os).listeners,
          eq_refl t,
        )
        (is_set-delete d s u, has-delete c d s u ∙ forgotten (d == c) h)

  unsubscribes-Agrees :
      (u : String) (d : ℕ) (os : List Op) → Agrees t c os → Agrees t c (unsubscribes u d ∷ os)
  unsubscribes-Agrees u d os v = elim (Bool-cases (str_eq u t)) [
    | inl hit ↦
        subst (λ w. Agrees t c (unsubscribes w d ∷ os)) (sym ((eq_iff u t).0 hit))
          (unsubscribes_self d os v)
    | inr miss ↦
        rw
          (
            listeners-unsubscribe u d (after os),
            set_of-unsubscribe_ne u d (after os).listeners t miss,
            miss,
          )
          v
  ]

  pub after-Agrees : (os : List Op) → Agrees t c os
  unfolding has is_set clear lookup subscribe_all unsubscribe_all
  after-Agrees [] = (refl, refl)
  after-Agrees (subscribes u d ∷ os) = subscribes-Agrees u d os (after-Agrees os)
  after-Agrees (unsubscribes u d ∷ os) = unsubscribes-Agrees u d os (after-Agrees os)
  after-Agrees (subscribes_all d ∷ os) = after-Agrees os
  after-Agrees (unsubscribes_all d ∷ os) = after-Agrees os
  after-Agrees (clears ∷ os) = (refl, refl)

-- So is the set of the callbacks for every packet.
abbrev AgreesAll : ℕ → List Op → Type 0
AgreesAll c os =
    (is_set (after os).global_listeners ≡ true)
    × (has c (after os).global_listeners ≡ listens_all c os)

module _ (c : ℕ) where
  subscribes_all-AgreesAll :
      (d : ℕ) (os : List Op) → AgreesAll c os → AgreesAll c (subscribes_all d ∷ os)
  unfolding subscribe_all
  subscribes_all-AgreesAll d os (u, h) =
      let s = (after os).global_listeners in (is_set-add d s u, has-add c d s ∙ ground (arith, h))

  unsubscribes_all-AgreesAll :
      (d : ℕ) (os : List Op) → AgreesAll c os → AgreesAll c (unsubscribes_all d ∷ os)
  unfolding unsubscribe_all
  unsubscribes_all-AgreesAll d os (u, h) =
      let s = (after os).global_listeners in
      (is_set-delete d s u, has-delete c d s u ∙ forgotten (d == c) h)

  pub after-AgreesAll : (os : List Op) → AgreesAll c os
  unfolding has is_set clear subscribe unsubscribe
  after-AgreesAll [] = (refl, refl)
  after-AgreesAll (subscribes u d ∷ os) = after-AgreesAll os
  after-AgreesAll (unsubscribes u d ∷ os) = after-AgreesAll os
  after-AgreesAll (subscribes_all d ∷ os) = subscribes_all-AgreesAll d os (after-AgreesAll os)
  after-AgreesAll (unsubscribes_all d ∷ os) = unsubscribes_all-AgreesAll d os (after-AgreesAll os)
  after-AgreesAll (clears ∷ os) = (refl, refl)
