-- ===== src/Endpoints/Tuples.antt =====
-- The tests on flow tuples, and when a record has one.
use netobserv_cli.Common.{ℕ, ◌≡◌, refl, ◌↔◌, true, ◌&&◌, Option, none, some, arith, is_some, ◌>>=◌}
use netobserv_cli.Text.{Bytes, codes}
use netobserv_cli.Text.Laws.{eq_bytes_iff}
use netobserv_cli.GenericMap.{GenericMap, get}
use netobserv_cli.Extern.{Extern}
use netobserv_cli.Endpoints.{
  FlowTuple, tuples_equal, tuples_reverse_equal, plaintext_has_tuple, flow_tuple_from_map,
  valid_ip_string, map_port_from_generic,
}

abbrev pub tuple_of : Option Bytes → Option Bytes → Option ℕ → Option ℕ → Option FlowTuple
tuple_of a b c d = do
  src ← a
  dst ← b
  sp ← c
  dp ← d
  some (record { src_ip = src; dst_ip = dst; src_port = sp; dst_port = dp })

pub tuple_of-cong :
    {a a' b b' : Option Bytes} {c c' d d' : Option ℕ}
    → a ≡ a'
    → b ≡ b'
    → c ≡ c'
    → d ≡ d'
    → tuple_of a b c d ≡ tuple_of a' b' c' d'
tuple_of-cong ea eb ec ed = rw (ea, eb, ec, ed) refl

-- The tuple of the answers to a packet.
abbrev pub reversed : FlowTuple → FlowTuple
reversed t = record {
  src_ip = t.dst_ip;
  dst_ip = t.src_ip;
  src_port = t.dst_port;
  dst_port = t.src_port;
}

-- `tuplesEqual` holds of equal tuples alone.
pub tuples_equal_iff : (a b : FlowTuple) → (tuples_equal a b ≡ true) ↔ (a ≡ b)
unfolding tuples_equal
tuples_equal_iff a b =
    ground (arith, eq_bytes_iff a.src_ip b.src_ip, eq_bytes_iff a.dst_ip b.dst_ip)

-- `tuplesReverseEqual` holds of a tuple and its reverse alone.
pub tuples_reverse_equal_iff :
    (a b : FlowTuple) → (tuples_reverse_equal a b ≡ true) ↔ (a ≡ reversed b)
unfolding tuples_reverse_equal
tuples_reverse_equal_iff a b =
    ground (arith, eq_bytes_iff a.src_ip b.dst_ip, eq_bytes_iff a.dst_ip b.src_ip)

module _ (ext : Extern) where
  -- `plaintextHasTuple` holds of the records that `flowTupleFromMap` gives a tuple for.
  pub plaintext_has_tuple-flow_tuple :
      (m : GenericMap) → plaintext_has_tuple ext m ≡ is_some (flow_tuple_from_map ext m)
  unfolding plaintext_has_tuple flow_tuple_from_map
  plaintext_has_tuple-flow_tuple m =
      by_parts (valid_ip_string ext (get (codes "SrcAddr") m))
        (valid_ip_string ext (get (codes "DstAddr") m)) (map_port_from_generic m (codes "SrcPort"))
        (map_port_from_generic m (codes "DstPort"))
    where
      by_parts :
          (a b : Option Bytes) (c d : Option ℕ)
          → (is_some a && is_some b && is_some c && is_some d) ≡ is_some (tuple_of a b c d)
      by_parts none b c d = refl
      by_parts (some a) none c d = refl
      by_parts (some a) (some b) none d = refl
      by_parts (some a) (some b) (some c) none = refl
      by_parts (some a) (some b) (some c) (some d) = refl
