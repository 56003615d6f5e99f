-- ===== src/GenericMap/Laws.antt =====
-- What a read gives after a write or a deletion.
use netobserv_cli.Common.{
  ◌≡◌, refl, Bool, true, ap, [], Option, ◌∷◌, none, some, arith, if◌then◌else◌, Bool-cases, inl,
  inr,
}
use netobserv_cli.Text.{Bytes, eq_bytes}
use netobserv_cli.Text.Laws.{eq_bytes_iff, eq_bytes→eq, eq_bytes_refl}
use netobserv_cli.GenericMap.{
  GenericMap, Value, null, lookup, get, put, delete_if, is_string, str, float64, int, int64, uint16,
  uint64, bool, slice, object,
}

-- No key stands twice, as in a Go map.
abbrev pub HasUniqueKeys : GenericMap → Type 0
HasUniqueKeys [] = Unit
HasUniqueKeys ((key, v) ∷ m) = (lookup key m ≡ none) × HasUniqueKeys m

-- A value, or another one where there is none.
abbrev pub found_or : Option Value → Option Value → Option Value
found_or (some v) w = some v
found_or none w = w

pub lookup-put :
    (k j : Bytes) (v : Value) (m : GenericMap)
    → lookup j (put k v m) ≡ (if eq_bytes k j then some v else lookup j m)
unfolding lookup put
lookup-put k j v [] = refl
lookup-put k j v ((i, w) ∷ m) =
    ground (arith, eq_bytes_iff k j, eq_bytes_iff i k, eq_bytes_iff i j, lookup-put k j v m)

pub get-put :
    (k j : Bytes) (v : Value) (m : GenericMap)
    → get j (put k v m) ≡ (if eq_bytes k j then v else get j m)
unfolding get
get-put k j v m = ground (arith, lookup-put k j v m)

pub get-put_self : (k : Bytes) (v : Value) (m : GenericMap) → get k (put k v m) ≡ v
get-put_self k v m = rw (get-put, eq_bytes_refl)

pub lookup-delete_if :
    (p : Bytes → Bool) (j : Bytes) (m : GenericMap)
    → lookup j (delete_if p m) ≡ (if p j then none else lookup j m)
unfolding lookup delete_if
lookup-delete_if p j [] = ground arith
lookup-delete_if p j ((i, w) ∷ m) = elim (Bool-cases (eq_bytes i j)) [
  | inl same ↦
      let e : i ≡ j = (eq_bytes_iff i j).0 same in
      rw e (ground (arith, lookup-delete_if p j m, eq_bytes_refl j))
  | inr other ↦ ground (arith, lookup-delete_if p j m)
]

pub get-delete_if :
    (p : Bytes → Bool) (j : Bytes) (m : GenericMap)
    → get j (delete_if p m) ≡ (if p j then null else get j m)
unfolding get
get-delete_if p j m = ground (arith, lookup-delete_if p j m)

-- A text that equals another one is it.
pub is_string→eq : (s : Bytes) (v : Value) → is_string s v ≡ true → v ≡ str s
unfolding is_string
is_string→eq s (str t) h = ap str (eq_bytes→eq t s h)
is_string→eq s null h = absurd (cc h)
is_string→eq s (float64 v) h = absurd (cc h)
is_string→eq s (int v) h = absurd (cc h)
is_string→eq s (int64 v) h = absurd (cc h)
is_string→eq s (uint16 v) h = absurd (cc h)
is_string→eq s (uint64 v) h = absurd (cc h)
is_string→eq s (bool v) h = absurd (cc h)
is_string→eq s (slice v) h = absurd (cc h)
is_string→eq s (object v) h = absurd (cc h)

pub is_string_refl : (s : Bytes) → is_string s (str s) ≡ true
unfolding is_string
is_string_refl s = eq_bytes_refl s
