-- ===== src/Js/Spread.antt =====
-- Property reads after `insert` and after an object spread.
use algorithmic_trading_simu.Prelude.{
  ◌≡◌, refl, Bool, true, false, String, str_eq, eq_iff, if◌then◌else◌, arith,
}
use algorithmic_trading_simu.Js.{Value, Fields, end, field, lookup, owns, insert, spread}

pub lookup-insert :
    (k j : String) (v : Value) (fs : Fields)
    → lookup j (insert k v fs) ≡ (if str_eq k j then v else lookup j fs)
unfolding lookup insert
lookup-insert k j v end = refl
lookup-insert k j v (field i w fs) =
    ground (arith, eq_iff k j, eq_iff i k, eq_iff i j, lookup-insert k j v fs)

pub owns-insert :
    (k j : String) (v : Value) (fs : Fields)
    → owns j (insert k v fs) ≡ (if str_eq k j then true else owns j fs)
unfolding owns insert
owns-insert k j v end = refl
owns-insert k j v (field i w fs) =
    ground (arith, eq_iff k j, eq_iff i k, eq_iff i j, owns-insert k j v fs)

-- No property stands twice.
abbrev pub distinct : Fields → Bool
distinct end = true
distinct (field k v fs) = if owns k fs then false else distinct fs

pub lookup_unowned : (k : String) (fs : Fields) → owns k fs ≡ false → lookup k fs ≡ Value.undefined
unfolding lookup owns
lookup_unowned k end h = refl
lookup_unowned k (field j w fs) h = ground (arith, lookup_unowned k fs)

pub distinct-insert :
    (k : String) (v : Value) (fs : Fields) → distinct fs ≡ true → distinct (insert k v fs) ≡ true
unfolding insert owns
distinct-insert k v end h = refl
distinct-insert k v (field j w fs) h =
    ground (arith, eq_iff j k, eq_iff k j, owns-insert k j v fs, distinct-insert k v fs)

-- A property of the patch wins; any other is the base's.
pub lookup-spread :
    (k : String) (base patch : Fields)
    → distinct patch ≡ true
    → lookup k (spread base patch) ≡ (if owns k patch then lookup k patch else lookup k base)
unfolding lookup owns spread
lookup-spread k base end d = refl
lookup-spread k base (field j v patch) d =
    ground (arith, lookup-spread k (insert j v base) patch, lookup-insert j k v base, eq_iff j k)
