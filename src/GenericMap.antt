-- ===== src/GenericMap.antt =====
-- `config.GenericMap`, a Go `map[string]interface{}` decoded from JSON, and the reads and writes
-- that the program makes of it. The map is an association list whose keys stand once.
pub mod Laws
use netobserv_cli.Common.{
  ℕ, ◌*◌, ◌/◌, ◌^◌, Bool, true, false, List, [], ◌∷◌, ◌++◌, Option, none, some, if◌then◌else◌, not,
  ltb, is_some,
}
use netobserv_cli.Common.Int.{ℤ, pos, negsuc, neg, neg_part}
use netobserv_cli.Text.{Bytes, eq_bytes}

-- A finite `float64` is `num / 2 ^ scale`; JSON gives no infinity and no NaN.
pub record Float : Type 0 where
  pub num : ℤ
  pub scale : ℕ

-- Division towards zero, and `int64(v)` by it. (A value out of the range of `int64` is left as it is.)
unfoldable pub quotient_ℤ : ℤ → ℕ → ℤ
quotient_ℤ (pos n) d = pos (n / d)
quotient_ℤ (negsuc n) d = neg (pos (ℕ.suc n / d))

unfoldable pub truncate : Float → ℤ
unfolding quotient_ℤ
truncate v = quotient_ℤ v.num (2 ^ v.scale)

unfoldable pub positive : ℤ → Bool
positive (pos n) = ltb 0 n
positive (negsuc n) = false

unfoldable pub is_zero : ℤ → Bool
is_zero (pos n) = not (ltb 0 n)
is_zero (negsuc n) = false

abbrev pub whole : ℕ → Float
whole n = record { num = pos n; scale = 0 }

-- The values that an `interface{}` of such a map holds: JSON's, and those that the program stores.
mutual
  pub data Value : Type 0 where
    null : Value
    str : Bytes → Value
    float64 : Float → Value
    int : ℤ → Value
    int64 : ℤ → Value
    uint16 : ℕ → Value
    uint64 : ℕ → Value
    bool : Bool → Value
    slice : Items → Value
    object : Fields → Value

  pub data Items : Type 0 where
    nil : Items
    item : Value → Items → Items

  pub data Fields : Type 0 where
    end : Fields
    field : Bytes → Value → Fields → Fields

abbrev pub GenericMap : Type 0
GenericMap = List (Bytes × Value)

-- `v, ok := m[key]`.
unfoldable pub lookup : Bytes → GenericMap → Option Value
lookup key [] = none
lookup key ((k, v) ∷ m) = if eq_bytes k key then some v else lookup key m

-- `m[key]`: the nil interface where the key is missing.
unfoldable pub get : Bytes → GenericMap → Value
unfolding lookup
get key m = elim (lookup key m) [ none ↦ null | some v ↦ v ]

-- `m[key] = v`.
unfoldable pub put : Bytes → Value → GenericMap → GenericMap
put key v [] = (key, v) ∷ []
put key v ((k, w) ∷ m) = if eq_bytes k key then (key, v) ∷ m else (k, w) ∷ put key v m

-- `for key := range m { if p(key) { delete(m, key) } }`.
unfoldable pub delete_if : (Bytes → Bool) → GenericMap → GenericMap
delete_if p [] = []
delete_if p ((k, v) ∷ m) = if p k then delete_if p m else (k, v) ∷ delete_if p m

-- `s, _ := v.(string)`.
unfoldable pub as_string : Value → Bytes
as_string (str s) = s
as_string _ = []

-- `s, ok := v.(string)`.
unfoldable pub string? : Value → Option Bytes
string? (str s) = some s
string? _ = none

-- `v == "literal"`, a comparison of interfaces.
unfoldable pub is_string : Bytes → Value → Bool
is_string s (str t) = eq_bytes t s
is_string s _ = false

unfoldable pub float? : Value → Option Float
float? (float64 v) = some v
float? _ = none

unfoldable pub int? : Value → Option ℤ
int? (int n) = some n
int? _ = none
