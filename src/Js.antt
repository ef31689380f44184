-- ===== src/Js.antt =====
-- The JavaScript values that the frontend receives (JSON replies, WebSocket packets) and the parts
-- of the language that it reads them with: truthiness, `??`, property reads, object spread and
-- `Number(v)`. Numbers are `Number` values: the special ones, and the finite ones as integers that
-- count a fixed unit (one dollar, cent or tick), so that no rounding occurs in the model.
pub mod Spread
use algorithmic_trading_simu.Prelude.{
  ℕ, zero, suc, ◌≡◌, refl, Bool, true, false, not, ◌&&◌, Option, none, some, String, str_eq,
  if◌then◌else◌, ◌==◌,
}
use algorithmic_trading_simu.Prelude.Int.{ℤ, pos, negsuc, ltb_ℤ}

pub data Number : Type 0 where
  finite : ℤ → Number
  infinity neg_infinity nan : Number

mutual
  pub data Value : Type 0 where
    undefined null : Value
    bool : Bool → Value
    number : Number → Value
    string : String → Value
    array : Items → Value
    object : Fields → Value

  pub data Items : Type 0 where
    nil : Items
    cons : Value → Items → Items

  -- The own properties of an object, in insertion order.
  pub data Fields : Type 0 where
    end : Fields
    field : String → Value → Fields → Fields

-- `Number.isFinite` on a number.
abbrev pub is_finite : Number → Bool
is_finite (finite n) = true
is_finite _ = false

-- `n > 0` on a number.
abbrev pub is_positive : Number → Bool
is_positive (finite n) = ltb_ℤ (pos 0) n
is_positive infinity = true
is_positive _ = false

-- Whether a number is truthy: it is not 0 and not NaN.
abbrev pub truthy_number : Number → Bool
truthy_number (finite (pos n)) = not (n == 0)
truthy_number (finite (negsuc n)) = true
truthy_number infinity = true
truthy_number neg_infinity = true
truthy_number nan = false

abbrev pub truthy : Value → Bool
truthy undefined = false
truthy null = false
truthy (bool b) = b
truthy (number n) = truthy_number n
truthy (string s) = not (str_eq s "")
truthy (array xs) = true
truthy (object fs) = true

-- `a || b`.
abbrev pub or_else : Value → Value → Value
or_else a b = if truthy a then a else b

-- `a ?? b`.
abbrev pub coalesce : Value → Value → Value
coalesce undefined b = b
coalesce null b = b
coalesce a b = a

-- The value of an own property; a missing one reads as `undefined`.
unfoldable pub lookup : String → Fields → Value
lookup k end = undefined
lookup k (field j v fs) = if str_eq j k then v else lookup k fs

-- Whether the object has the property.
unfoldable pub owns : String → Fields → Bool
owns k end = false
owns k (field j v fs) = if str_eq j k then true else owns k fs

-- `v?.k`, for a key that is no member of a prototype. `v.k` differs on `undefined` and `null`
-- alone, where it throws: `get` is `none` there.
abbrev pub opt_get : String → Value → Value
opt_get k (object fs) = lookup k fs
opt_get k _ = undefined

abbrev pub get : String → Value → Option Value
get k undefined = none
get k null = none
get k v = some (opt_get k v)

-- Setting one property: an old one keeps its place.
unfoldable pub insert : String → Value → Fields → Fields
insert k v end = field k v end
insert k v (field j w fs) = if str_eq j k then field k v fs else field j w (insert k v fs)

-- `{ ...base, ...patch }`.
unfoldable pub spread : Fields → Fields → Fields
unfolding insert
spread base end = base
spread base (field k v patch) = spread (insert k v base) patch

-- What `...v` copies: the properties of an object. `undefined` and `null` have none; the values
-- spread in the frontend are no arrays and no texts.
abbrev pub fields_of : Value → Fields
fields_of (object fs) = fs
fields_of _ = end

-- `Number(v)`. Texts, arrays and objects are read by the language's own conversion, a parameter.
abbrev pub to_number : (Value → Number) → Value → Number
to_number convert undefined = nan
to_number convert null = finite (pos 0)
to_number convert (bool true) = finite (pos 1)
to_number convert (bool false) = finite (pos 0)
to_number convert (number n) = n
to_number convert v = convert v
