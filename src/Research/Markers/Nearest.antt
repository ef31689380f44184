-- ===== src/Research/Markers/Nearest.antt =====
-- The row that a signal is put on.
use algorithmic_trading_simu.Prelude.{
  ℕ, zero, suc, ◌+◌, ◌≤◌, ◌<◌, ◌⊎◌, ◌≡◌, refl, ap, true, false, Option, none, some, String, List,
  [], ◌∷◌, length, arith, Bool-cases, inl, inr, lt_or_le,
}
use algorithmic_trading_simu.Js.{Value, Fields, insert}
use algorithmic_trading_simu.Research.Markers.{
  Signal, distance, closer, nearest_from, nearest, assign, times_of, mark,
}

-- The distance of a row that there is, and none otherwise.
abbrev pub distance_at : Option ℕ → ℕ → List (Option ℕ) → Option ℕ
distance_at t i [] = none
distance_at t zero (x ∷ xs) = distance x t
distance_at t (suc i) (x ∷ xs) = distance_at t i xs

-- Of the rows from index i on, the search leaves the best so far, or takes the first of the closest.
data Search (t : Option ℕ) (i best : ℕ) (bd : Option ℕ) (xs : List (Option ℕ)) (k : ℕ)
    : Type 0 where
  kept : k ≡ best → ((j : ℕ) → closer (distance_at t j xs) bd ≡ false) → Search t i best bd xs k
  found :
      (m : ℕ)
      → k ≡ i + m
      → m < length xs
      → closer (distance_at t m xs) bd ≡ true
      → ((j : ℕ) → closer (distance_at t j xs) (distance_at t m xs) ≡ false)
      → ((j : ℕ) → j < m → closer (distance_at t m xs) (distance_at t j xs) ≡ true)
      → Search t i best bd xs k

closer_trans : (a b c : Option ℕ) → closer a b ≡ true → closer b c ≡ true → closer a c ≡ true
closer_trans none b c h k = absurd (ground (arith, h))
closer_trans (some a) none c h k = absurd (ground (arith, k))
closer_trans (some a) (some b) none h k = refl
closer_trans (some a) (some b) (some c) h k = ground (arith, h, k)

closer_not : (a b c : Option ℕ) → closer a b ≡ true → closer c b ≡ false → closer a c ≡ true
closer_not none b c h k = absurd (ground (arith, h))
closer_not (some a) b none h k = refl
closer_not (some a) none (some c) h k = absurd (ground (arith, k))
closer_not (some a) (some b) (some c) h k = ground (arith, h, k)

closer_same : (a : Option ℕ) → closer a a ≡ false
closer_same none = refl
closer_same (some a) = ground arith

closer_asym : (a b : Option ℕ) → closer a b ≡ true → closer b a ≡ false
closer_asym none b h = absurd (ground (arith, h))
closer_asym (some a) none h = refl
closer_asym (some a) (some b) h = ground (arith, h)

module _ (t x : Option ℕ) (xs : List (Option ℕ)) where
  -- What holds of the row at hand and of the later ones holds of all.
  rows_against :
      (d : Option ℕ)
      → closer (distance x t) d ≡ false
      → ((j : ℕ) → closer (distance_at t j xs) d ≡ false)
      → (j : ℕ) → closer (distance_at t j (x ∷ xs)) d ≡ false
  rows_against d h k zero = h
  rows_against d h k (suc j) = k j

  earlier_rows :
      (m : ℕ)
      → closer (distance_at t m xs) (distance x t) ≡ true
      → ((j : ℕ) → j < m → closer (distance_at t m xs) (distance_at t j xs) ≡ true)
      → (j : ℕ) → j < suc m
      → closer (distance_at t m xs) (distance_at t j (x ∷ xs)) ≡ true
  earlier_rows m h k zero l = h
  earlier_rows m h k (suc j) l = k j (omega (arith, l))

  Search-closer :
      (i best k : ℕ) (bd : Option ℕ)
      → closer (distance x t) bd ≡ true
      → Search t (suc i) i (distance x t) xs k
      → Search t i best bd (x ∷ xs) k
  Search-closer i best k bd h (kept e f) =
      found zero (omega (arith, e)) (omega arith) h
        (rows_against (distance x t) (closer_same (distance x t)) f)
        (λ j l. absurd (omega (arith, l)))
  Search-closer i best k bd h (found m e l c f g) =
      found (suc m) (omega (arith, e)) (omega (arith, l))
        (closer_trans (distance_at t m xs) (distance x t) bd c h)
        (rows_against (distance_at t m xs) (closer_asym (distance_at t m xs) (distance x t) c) f)
        (earlier_rows m c g)

  Search-farther :
      (i best k : ℕ) (bd : Option ℕ)
      → closer (distance x t) bd ≡ false
      → Search t (suc i) best bd xs k
      → Search t i best bd (x ∷ xs) k
  Search-farther i best k bd h (kept e f) = kept e (rows_against bd h f)
  Search-farther i best k bd h (found m e l c f g) =
      let closest = closer_not (distance_at t m xs) bd (distance x t) c h in
      found (suc m) (omega (arith, e)) (omega (arith, l)) c
        (rows_against (distance_at t m xs) (closer_asym (distance_at t m xs) (distance x t) closest)
          f)
        (earlier_rows m closest g)

nearest_from-Search :
    (t : Option ℕ) (i best : ℕ) (bd : Option ℕ) (xs : List (Option ℕ))
    → Search t i best bd xs (nearest_from t i best bd xs)
unfolding nearest_from
nearest_from-Search t i best bd [] = kept refl (λ j. refl)
nearest_from-Search t i best bd (x ∷ xs) = elim (Bool-cases (closer (distance x t) bd)) [
  | inl e ↦
      rw (nearest_from, e)
        (Search-closer t x xs i best (nearest_from t (suc i) i (distance x t) xs) bd e
          (nearest_from-Search t (suc i) i (distance x t) xs))
  | inr e ↦
      rw (nearest_from, e)
        (Search-farther t x xs i best (nearest_from t (suc i) best bd xs) bd e
          (nearest_from-Search t (suc i) best bd xs))
]

nearest-Search : (t : Option ℕ) (xs : List (Option ℕ)) → Search t 0 0 none xs (nearest t xs)
unfolding nearest
nearest-Search t xs = nearest_from-Search t 0 0 none xs

-- The rows with one property of one row set.
abbrev pub edit_at : ℕ → String → Value → List Fields → List Fields
edit_at i k v [] = []
edit_at zero k v (row ∷ rows) = insert k v row ∷ rows
edit_at (suc i) k v (row ∷ rows) = row ∷ edit_at i k v rows

assign-edit_at :
    (i : ℕ) (k : String) (v : Value) (rows : List Fields)
    → i < length rows
    → assign i k v rows ≡ some (edit_at i k v rows)
unfolding assign
assign-edit_at i k v [] l = absurd (omega (arith, l))
assign-edit_at zero k v (row ∷ rows) l = refl
assign-edit_at (suc i) k v (row ∷ rows) l = rw (assign-edit_at i k v rows (omega (arith, l))) refl

length-times_of :
    (time_of : Value → Option ℕ) (rows : List Fields) → length (times_of time_of rows) ≡ length rows
length-times_of time_of [] = refl
length-times_of time_of (row ∷ rows) = ap suc (length-times_of time_of rows)

closer_never : (a b : Option ℕ) → closer a none ≡ false → closer a b ≡ false
closer_never none b h = refl
closer_never (some a) b h = absurd (ground (arith, h))

-- The first of the closest rows.
Search-first :
    (t : Option ℕ) (times : List (Option ℕ)) (k : ℕ)
    → 0 < length times
    → Search t 0 0 none times k
    → (k < length times)
      × ((j : ℕ) → closer (distance_at t j times) (distance_at t k times) ≡ false)
      × ((j : ℕ) → (k ≤ j) ⊎ (closer (distance_at t k times) (distance_at t j times) ≡ true))
Search-first t times k l (kept e f) = rw (e) (
  l,
  (λ j. closer_never (distance_at t j times) (distance_at t 0 times) (f j)),
  (λ j. inl (omega arith)),
)
Search-first t times k l (found m e b c f g) =
    let same : k ≡ m = omega (arith, e) in
    rw (same)
      (b, f, λ j. elim (lt_or_le j m) [ inl before ↦ inr (g j before) | inr after ↦ inl after ])

-- A signal is put on one row, and every other row stays: of the rows whose date is nearest to the
-- signal's it is the first. A date that is none is never nearer than another.
pub mark-nearest :
    (time_of : Value → Option ℕ) (sg : Signal) (row : Fields) (rows : List Fields)
    → let times = times_of time_of (row ∷ rows) in
      let t = time_of sg.date in
      let k = nearest t times in
      (mark time_of times sg (row ∷ rows) ≡ some (edit_at k sg.type sg.price (row ∷ rows)))
      × (k < length (row ∷ rows))
      × ((j : ℕ) → closer (distance_at t j times) (distance_at t k times) ≡ false)
      × ((j : ℕ) → (k ≤ j) ⊎ (closer (distance_at t k times) (distance_at t j times) ≡ true))
unfolding mark
mark-nearest time_of sg row rows =
    let times = times_of time_of (row ∷ rows) in
    let t = time_of sg.date in
    let k = nearest t times in
    let (b, f, g) = Search-first t times k (omega arith) (nearest-Search t times) in
    let inside : k < length (row ∷ rows) = omega (arith, b, length-times_of time_of rows) in
    (assign-edit_at k sg.type sg.price (row ∷ rows) inside, inside, f, g)
