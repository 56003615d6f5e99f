-- ===== src/Plaintext/Unmatched.antt =====
-- Records that no packet was matched to: `plaintextTupleVerified` and `prepareUnmatchedPlaintext` of
-- cmd/packet_capture_plaintext.go.
pub mod Laws
use netobserv_cli.Common.{Bool, ◌&&◌, ◌||◌, List, [], ◌∷◌, ◌++◌, if◌then◌else◌, not, drop}
use netobserv_cli.Text.{Bytes, codes, eq_bytes, has_prefix}
use netobserv_cli.GenericMap.{GenericMap, Value, get, put, delete_if, is_string}
use netobserv_cli.Extern.{Extern}
use netobserv_cli.Endpoints.{plaintext_has_tuple}

-- The keys that an unverified record loses.
unfoldable pub is_endpoint_key : Bytes → Bool
unfolding has_prefix
is_endpoint_key key =
    eq_bytes key (codes "SrcAddr")
    || eq_bytes key (codes "DstAddr")
    || eq_bytes key (codes "SrcPort")
    || eq_bytes key (codes "DstPort")
    || has_prefix (codes "SrcK8S_") key
    || has_prefix (codes "DstK8S_") key

unfoldable pub is_sided_key : Bytes → Bool
is_sided_key key = has_prefix (codes "Src") key || has_prefix (codes "Dst") key

-- One round of the loop that writes each side's fields under the other side's names.
unfoldable pub put_swapped : Bytes → Value → GenericMap → GenericMap
put_swapped key v m =
    let m' = if has_prefix (codes "Src") key then put (codes "Dst" ++ drop 3 key) v m else m in
    if has_prefix (codes "Dst") key then put (codes "Src" ++ drop 3 key) v m' else m'

unfoldable pub put_all_swapped : GenericMap → GenericMap → GenericMap
unfolding put_swapped
put_all_swapped [] m = m
put_all_swapped ((key, v) ∷ original) m = put_all_swapped original (put_swapped key v m)

unfoldable pub swap_sides : GenericMap → GenericMap
unfolding put_all_swapped is_sided_key
swap_sides m = put_all_swapped m (delete_if is_sided_key m)

module _ (ext : Extern) where
  unfoldable pub plaintext_tuple_verified : GenericMap → Bool
  unfolding is_string
  plaintext_tuple_verified m =
      is_string (codes "kernel") (get (codes "TupleSource") m) && plaintext_has_tuple ext m

  unfoldable pub prepare_unmatched_plaintext : GenericMap → GenericMap
  unfolding is_endpoint_key swap_sides
  prepare_unmatched_plaintext m =
      if not (plaintext_tuple_verified m)
      then delete_if is_endpoint_key m
      else if not (is_string (codes "read") (get (codes "Direction") m))
      then m
      else swap_sides m
