-- ===== src/Endpoints.antt =====
-- Addresses, ports and flow tuples of a record: cmd/packet_capture_wire_buffer.go, from
-- `plaintextHasTuple` to `wireIngressTo`.
pub mod Ports
pub mod Tuples
pub mod Overlay
use netobserv_cli.Common.{
  ℕ, Bool, true, false, ◌&&◌, ◌||◌, List, [], ◌∷◌, Option, none, some, ltb, ◌==◌, if◌then◌else◌,
  not, is_some, ◌>>=◌, take,
}
use netobserv_cli.Common.Int.{ℤ, pos, negsuc}
use netobserv_cli.Text.{Bytes, codes, eq_bytes, is_empty, index, trim_space}
use netobserv_cli.Text.Numbers.{parse_uint}
use netobserv_cli.GenericMap.{
  GenericMap, Value, str, float64, uint16, int, int64, get, put, truncate, string?, whole,
}
use netobserv_cli.Extern.{Extern}

abbrev pub max_port : ℕ
max_port = 65535

unfoldable pub port_in_range : ℤ → Option ℕ
port_in_range (pos v) = if ltb max_port v then none else some v
port_in_range (negsuc v) = none

-- What stands before the first `(`.
unfoldable pub before_paren : Bytes → Bytes
unfolding index
before_paren s = elim (index (b'(' ∷ []) s) [ none ↦ s | some i ↦ take i s ]

unfoldable pub parse_port_string : Bytes → Option ℕ
unfolding before_paren trim_space parse_uint
parse_port_string s =
    let t = trim_space (before_paren s) in if is_empty t then none else parse_uint max_port t

unfoldable pub port_of_value : Value → Option ℕ
unfolding port_in_range parse_port_string truncate
port_of_value (str s) = parse_port_string s
port_of_value (float64 v) = port_in_range (truncate v)
port_of_value (uint16 v) = some v
port_of_value (int v) = port_in_range v
port_of_value (int64 v) = port_in_range v
port_of_value _ = none

unfoldable pub map_port_from_generic : GenericMap → Bytes → Option ℕ
unfolding port_of_value get
map_port_from_generic m key = port_of_value (get key m)

pub record FlowTuple : Type 0 where
  pub src_ip : Bytes
  pub dst_ip : Bytes
  pub src_port : ℕ
  pub dst_port : ℕ

unfoldable pub tuples_equal : FlowTuple → FlowTuple → Bool
tuples_equal a b =
    eq_bytes a.src_ip b.src_ip
    && eq_bytes a.dst_ip b.dst_ip
    && a.src_port == b.src_port
    && a.dst_port == b.dst_port

unfoldable pub tuples_reverse_equal : FlowTuple → FlowTuple → Bool
tuples_reverse_equal a b =
    eq_bytes a.src_ip b.dst_ip
    && eq_bytes a.dst_ip b.src_ip
    && a.src_port == b.dst_port
    && a.dst_port == b.src_port

unfoldable pub set_plaintext_tuple : Bytes → ℕ → Bytes → ℕ → GenericMap → GenericMap
set_plaintext_tuple src_ip src_port dst_ip dst_port m = put (codes "Proto") (float64 (whole 6)) (
    put (codes "DstPort") (uint16 dst_port) (
      put (codes "SrcPort") (uint16 src_port)
        (put (codes "DstAddr") (str dst_ip) (put (codes "SrcAddr") (str src_ip) m))))

module _ (ext : Extern) where
  open ext use {parse_ip, ip_string, is_unspecified}

  -- An address that parses and is not the unspecified one, in its canonical print.
  unfoldable pub canonical_ip : Bytes → Option Bytes
  canonical_ip s = do ip ← parse_ip s; if is_unspecified ip then none else some (ip_string ip)

  unfoldable pub valid_ip_string : Value → Option Bytes
  unfolding canonical_ip string?
  valid_ip_string v = do
    s ← string? v
    if is_empty s || eq_bytes s (codes "0.0.0.0") || eq_bytes s (codes "::")
        then none
        else canonical_ip s

  unfoldable pub plaintext_has_tuple : GenericMap → Bool
  plaintext_has_tuple m =
      is_some (valid_ip_string (get (codes "SrcAddr") m))
      && is_some (valid_ip_string (get (codes "DstAddr") m))
      && is_some (map_port_from_generic m (codes "SrcPort"))
      && is_some (map_port_from_generic m (codes "DstPort"))

  unfoldable pub flow_tuple_from_map : GenericMap → Option FlowTuple
  flow_tuple_from_map m = do
    src ← valid_ip_string (get (codes "SrcAddr") m)
    dst ← valid_ip_string (get (codes "DstAddr") m)
    sp ← map_port_from_generic m (codes "SrcPort")
    dp ← map_port_from_generic m (codes "DstPort")
    some (record { src_ip = src; dst_ip = dst; src_port = sp; dst_port = dp })

  -- An address with a port above zero, under the two keys.
  unfoldable pub endpoint_at : Bytes → Bytes → GenericMap → Option (Bytes × ℕ)
  endpoint_at addr_key port_key m = do
    ip ← valid_ip_string (get addr_key m)
    p ← map_port_from_generic m port_key
    if ltb 0 p then some (ip, p) else none

  unfoldable pub plaintext_pod_endpoint : GenericMap → Option (Bytes × ℕ)
  unfolding endpoint_at
  plaintext_pod_endpoint m = elim (endpoint_at (codes "SrcAddr") (codes "SrcPort") m) [
    | some e ↦ some e
    | none ↦ endpoint_at (codes "DstAddr") (codes "DstPort") m
  ]

  -- The address under a key, if it is valid and another one than `pod_ip`.
  unfoldable pub other_ip : Bytes → Value → Option Bytes
  other_ip pod_ip v = do ip ← valid_ip_string v; if eq_bytes ip pod_ip then none else some ip

  unfoldable pub plaintext_peer_ip : GenericMap → Option Bytes
  unfolding other_ip
  plaintext_peer_ip m = do
    (pod_ip, _) ← plaintext_pod_endpoint m
    elim (other_ip pod_ip (get (codes "DstAddr") m)) [
      | some ip ↦ some ip
      | none ↦ other_ip pod_ip (get (codes "SrcAddr") m)
    ]

  -- `ok && x == y`.
  unfoldable pub has_ip : Value → Bytes → Bool
  has_ip v ip = elim (valid_ip_string v) [ none ↦ false | some a ↦ eq_bytes a ip ]

  unfoldable pub has_port : GenericMap → Bytes → ℕ → Bool
  has_port m key port = elim (map_port_from_generic m key) [ none ↦ false | some p ↦ p == port ]

  unfoldable pub wire_packet_has_ip : GenericMap → Bytes → Bool
  unfolding has_ip
  wire_packet_has_ip m ip =
      has_ip (get (codes "SrcAddr") m) ip || has_ip (get (codes "DstAddr") m) ip

  unfoldable pub wire_egress_from : GenericMap → Bytes → ℕ → Bool
  unfolding has_ip has_port
  wire_egress_from m ip port =
      has_ip (get (codes "SrcAddr") m) ip && has_port m (codes "SrcPort") port

  unfoldable pub wire_ingress_to : GenericMap → Bytes → ℕ → Bool
  unfolding has_ip has_port
  wire_ingress_to m ip port =
      has_ip (get (codes "DstAddr") m) ip && has_port m (codes "DstPort") port

  unfoldable pub wire_packet_has_ip_port : GenericMap → Bytes → ℕ → Bool
  unfolding has_ip has_port
  wire_packet_has_ip_port m ip port =
      if has_ip (get (codes "SrcAddr") m) ip && has_port m (codes "SrcPort") port
      then true
      else has_ip (get (codes "DstAddr") m) ip && has_port m (codes "DstPort") port

  unfoldable pub overlay_wire_tuple_to_plaintext : GenericMap → GenericMap → GenericMap
  unfolding set_plaintext_tuple
  overlay_wire_tuple_to_plaintext pt wire = elim (flow_tuple_from_map wire) [
    | none ↦ pt
    | some t ↦ set_plaintext_tuple t.src_ip t.src_port t.dst_ip t.dst_port pt
  ]
