-- ===== src/Plaintext/Unmatched/Laws.antt =====
-- What a record that no packet was matched to keeps and loses.
use netobserv_cli.Common.{
  ℕ, ◌≡◌, refl, true, false, [], ◌∷◌, ◌++◌, Option, none, some, arith, if◌then◌else◌, not,
  Bool-cases, inl, inr, drop,
}
use netobserv_cli.Text.{Bytes, codes, eq_bytes, has_prefix}
use netobserv_cli.Text.Laws.{eq_bytes_iff, has_prefix-append, append-has_prefix}
use netobserv_cli.GenericMap.{GenericMap, Value, lookup, get, put, delete_if, is_string}
use netobserv_cli.GenericMap.Laws.{HasUniqueKeys, found_or, lookup-put, lookup-delete_if}
use netobserv_cli.Extern.{Extern}
use netobserv_cli.Endpoints.{FlowTuple, flow_tuple_from_map, valid_ip_string, map_port_from_generic}
use netobserv_cli.Endpoints.Tuples.{tuple_of, reversed}
use netobserv_cli.Plaintext.Unmatched.{
  is_endpoint_key, is_sided_key, put_swapped, put_all_swapped, swap_sides, plaintext_tuple_verified,
  prepare_unmatched_plaintext,
}

-- The key of the other side.
unfoldable pub other_side : Bytes → Bytes
other_side key =
    if has_prefix (codes "Src") key
    then codes "Dst" ++ drop 3 key
    else if has_prefix (codes "Dst") key
    then codes "Src" ++ drop 3 key
    else key

-- A key cannot have both prefixes.
not_both :
    (key : Bytes) → has_prefix (codes "Src") key ≡ true → has_prefix (codes "Dst") key ≡ false
unfolding has_prefix
not_both [] e = cc
not_both (a ∷ key) e = ground arith

other_side_twice : (key : Bytes) → other_side (other_side key) ≡ key
unfolding other_side
other_side_twice key = elim (Bool-cases (has_prefix (codes "Src") key)) [
  | inl e ↦ ground (
    arith,
    not_both (codes "Dst" ++ drop 3 key),
    append-has_prefix (codes "Dst") (drop 3 key),
    append-has_prefix (codes "Src") (drop 3 key),
    has_prefix-append (codes "Src") key e,
  )
  | inr e ↦ elim (Bool-cases (has_prefix (codes "Dst") key)) [
    | inl e' ↦ ground (
      arith,
      append-has_prefix (codes "Src") (drop 3 key),
      has_prefix-append (codes "Dst") key e',
    )
    | inr e' ↦ ground arith
  ]
]

other_side_sided : (key : Bytes) → is_sided_key (other_side key) ≡ is_sided_key key
unfolding other_side is_sided_key
other_side_sided key = ground (
  arith,
  append-has_prefix (codes "Src") (drop 3 key),
  append-has_prefix (codes "Dst") (drop 3 key),
)

other_side_unsided : (key : Bytes) → is_sided_key key ≡ false → other_side key ≡ key
unfolding other_side is_sided_key
other_side_unsided key e = ground arith

put_swapped-put :
    (key : Bytes) (v : Value) (m : GenericMap)
    → put_swapped key v m ≡ (if is_sided_key key then put (other_side key) v m else m)
unfolding put_swapped other_side is_sided_key
put_swapped-put key v m = ground (arith, not_both key)

eq_other_side : (key j : Bytes) → eq_bytes (other_side key) j ≡ eq_bytes key (other_side j)
eq_other_side key j = ground (
  arith,
  other_side_twice key,
  other_side_twice j,
  eq_bytes_iff (other_side key) j,
  eq_bytes_iff key (other_side j),
)

put_all_swapped-unsided :
    (j : Bytes) (original m : GenericMap)
    → is_sided_key j ≡ false
    → lookup j (put_all_swapped original m) ≡ lookup j m
unfolding put_all_swapped
put_all_swapped-unsided j [] m e = refl
put_all_swapped-unsided j ((key, v) ∷ original) m e = ground (
  arith,
  put_all_swapped-unsided j original (put_swapped key v m),
  put_swapped-put key v m,
  lookup-put (other_side key) j v m,
  other_side_sided key,
  eq_bytes_iff (other_side key) j,
)

put_all_swapped-sided :
    (j : Bytes) (original m : GenericMap)
    → HasUniqueKeys original
    → is_sided_key j ≡ true
    → lookup j (put_all_swapped original m) ≡ found_or (lookup (other_side j) original) (lookup j m)
unfolding put_all_swapped lookup
put_all_swapped-sided j [] m u e = refl
put_all_swapped-sided j ((key, v) ∷ original) m u e = ground (
  arith,
  put_all_swapped-sided j original (put_swapped key v m),
  put_swapped-put key v m,
  lookup-put (other_side key) j v m,
  other_side_sided j,
  eq_other_side key j,
  eq_bytes_iff key (other_side j),
)

-- Swapping the sides gives each key what its other side had: `Src` and `Dst` fields change places, and
-- every other field stays.
pub lookup-swap_sides :
    (m : GenericMap) (key : Bytes)
    → HasUniqueKeys m
    → lookup key (swap_sides m) ≡ lookup (other_side key) m
unfolding swap_sides
lookup-swap_sides m key u = elim (Bool-cases (is_sided_key key)) [
  | inl e ↦ ground (
    arith,
    put_all_swapped-sided key m (delete_if is_sided_key m) u e,
    lookup-delete_if is_sided_key key m,
  )
  | inr e ↦ ground (
    arith,
    put_all_swapped-unsided key m (delete_if is_sided_key m) e,
    lookup-delete_if is_sided_key key m,
    other_side_unsided key e,
  )
]

get-swap_sides :
    (m : GenericMap) (key : Bytes)
    → HasUniqueKeys m
    → get key (swap_sides m) ≡ get (other_side key) m
unfolding get
get-swap_sides m key u = ground (arith, lookup-swap_sides m key u)

module _ (ext : Extern) where
  -- What the record sent out for an unmatched one holds under each key: if the tuple is not verified,
  -- its endpoint fields are gone; if it is and the record was read, each side has what the other side
  -- had; in all other cases, and under all other keys, it is as it
  -- was. No key of the record stands twice.
  pub lookup-prepare_unmatched :
      (m : GenericMap) (key : Bytes)
      → HasUniqueKeys m
      → lookup key (prepare_unmatched_plaintext ext m) ≡ (
          if not (plaintext_tuple_verified ext m)
          then (if is_endpoint_key key then none else lookup key m)
          else (if is_string (codes "read") (get (codes "Direction") m)
              then lookup (other_side key) m
              else lookup key m))
  unfolding prepare_unmatched_plaintext
  lookup-prepare_unmatched m key u =
      ground (arith, lookup-swap_sides m key u, lookup-delete_if is_endpoint_key key m)

  -- The tuple the other way round.
  unfoldable pub reverse_tuple : Option FlowTuple → Option FlowTuple
  reverse_tuple none = none
  reverse_tuple (some t) = some (reversed t)

  -- A swap of the sides reverses the flow tuple of a record in which no key stands twice.
  pub flow_tuple-swap_sides :
      (m : GenericMap)
      → HasUniqueKeys m
      → flow_tuple_from_map ext (swap_sides m) ≡ reverse_tuple (flow_tuple_from_map ext m)
  unfolding flow_tuple_from_map map_port_from_generic reverse_tuple other_side has_prefix
  flow_tuple-swap_sides m u =
      rw (src_addr, dst_addr, src_port, dst_port)
        (by_parts (valid_ip_string ext (get (codes "SrcAddr") m))
          (valid_ip_string ext (get (codes "DstAddr") m))
          (map_port_from_generic m (codes "SrcPort")) (map_port_from_generic m (codes "DstPort")))
    where
      src_addr : get (codes "SrcAddr") (swap_sides m) ≡ get (codes "DstAddr") m
      src_addr = get-swap_sides m (codes "SrcAddr") u

      dst_addr : get (codes "DstAddr") (swap_sides m) ≡ get (codes "SrcAddr") m
      dst_addr = get-swap_sides m (codes "DstAddr") u

      src_port : get (codes "SrcPort") (swap_sides m) ≡ get (codes "DstPort") m
      src_port = get-swap_sides m (codes "SrcPort") u

      dst_port : get (codes "DstPort") (swap_sides m) ≡ get (codes "SrcPort") m
      dst_port = get-swap_sides m (codes "DstPort") u

      by_parts :
          (a b : Option Bytes) (c d : Option ℕ)
          → tuple_of b a d c ≡ reverse_tuple (tuple_of a b c d)
      by_parts none none c d = refl
      by_parts none (some b) c d = refl
      by_parts (some a) none c d = refl
      by_parts (some a) (some b) none none = refl
      by_parts (some a) (some b) none (some d) = refl
      by_parts (some a) (some b) (some c) none = refl
      by_parts (some a) (some b) (some c) (some d) = refl
