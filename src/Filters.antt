-- ===== src/Filters.antt =====
-- The capture filters and the options that they are parsed from: cmd/packet_capture_filters.go, and
-- `optionEnabled` of cmd/root.go.
pub mod Options
pub mod Enrichment
use netobserv_cli.Common.{
  ℕ, Bool, true, false, ◌&&◌, ◌||◌, List, [], ◌∷◌, ◌++◌, Option, none, some, ltb, ◌==◌,
  if◌then◌else◌, not, any, length, drop,
}
use netobserv_cli.Text.{
  Bytes, codes, eq_bytes, is_empty, has_prefix, trim_prefix, trim_space, split, cut,
}
use netobserv_cli.GenericMap.{GenericMap, Value, str, float64, uint16, get, put, whole}
use netobserv_cli.Extern.{Extern, IpNet}
use netobserv_cli.Endpoints.{
  parse_port_string, map_port_from_generic, valid_ip_string, plaintext_has_tuple,
  wire_packet_has_ip,
}

pub record CaptureFilters : Type 0 where
  pub ports : List ℕ
  pub peer_ips : List Bytes
  pub peer_nets : List IpNet

unfoldable pub active : CaptureFilters → Bool
active f = not (is_empty f.ports) || not (is_empty f.peer_ips) || not (is_empty f.peer_nets)

unfoldable pub append_unique_port : List ℕ → ℕ → List ℕ
unfolding any
append_unique_port ports p =
    if any (λ existing. existing == p) ports then ports else ports ++ p ∷ []

-- One part of the `--options` text, without the blanks around it and the leading `--`.
unfoldable pub option_part : Bytes → Bytes
unfolding trim_space trim_prefix
option_part part = trim_prefix (codes "--") (trim_space part)

unfoldable pub option_value_of : Bytes → List Bytes → Bytes
option_value_of name [] = []
option_value_of name (p ∷ ps) =
    let part = option_part p in
    if has_prefix (name ++ codes "=") part
    then trim_prefix (name ++ codes "=") part
    else option_value_of name ps

-- `optionValue`, the options text first.
unfoldable pub option_value : Bytes → Bytes → Bytes
unfolding option_value_of
option_value options name = option_value_of name (split b'|' options)

-- Whether one part sets the option, if it names it.
unfoldable pub option_flag : Bytes → Bytes → Option Bool
unfolding cut
option_flag name part =
    let (key, after) = cut b'=' part in
    if eq_bytes key name
    then some (elim after [ none ↦ true | some v ↦ not (eq_bytes v (codes "false")) ])
    else none

unfoldable pub option_enabled_of : Bytes → List Bytes → Bool
option_enabled_of name [] = false
option_enabled_of name (p ∷ ps) = elim (option_flag name (option_part p)) [
  | some b ↦ b
  | none ↦ option_enabled_of name ps
]

-- `optionEnabled`, the options text first.
unfoldable pub option_enabled : Bytes → Bytes → Bool
unfolding option_enabled_of
option_enabled options name = option_enabled_of name (split b'|' options)

-- `plaintextCaptureEnabled` of cmd/packet_capture.go.
unfoldable pub plaintext_capture_enabled : Bytes → Bool
plaintext_capture_enabled options = option_enabled options (codes "enable_openssl")

-- One round of the loop over "port", "dport" and "sport".
unfoldable pub add_port_option : Bytes → List ℕ → Bytes → List ℕ
unfolding append_unique_port
add_port_option options ports key =
    let v = option_value options key in
    if is_empty v
    then ports
    else elim (parse_port_string v) [ none ↦ ports | some p ↦ append_unique_port ports p ]

unfoldable pub single_capture_peer_ip : CaptureFilters → Option Bytes
single_capture_peer_ip f = elim f.peer_ips [
  | [] ↦ none
  | ip ∷ rest ↦ if is_empty rest then some ip else none
]

unfoldable pub single_capture_port : CaptureFilters → ℕ
single_capture_port f = elim f.ports [ [] ↦ 0 | p ∷ rest ↦ if is_empty rest then p else 0 ]

-- `!ok || p == 0` and `ok && p > 0`, on the result of `mapPortFromGeneric`.
unfoldable pub port_missing : Option ℕ → Bool
port_missing none = true
port_missing (some p) = p == 0

unfoldable pub port_known : Option ℕ → Bool
port_known none = false
port_known (some p) = ltb 0 p

module _ (ext : Extern) where
  open ext use {parse_ip, ip_string, parse_cidr, net_contains}

  unfoldable pub parse_capture_filters : Bytes → CaptureFilters
  unfolding add_port_option
  parse_capture_filters options = record {
    ports =
        add_port_option options
          (add_port_option options (add_port_option options [] (codes "port")) (codes "dport"))
          (codes "sport");
    peer_ips =
        let v = option_value options (codes "peer_ip") in
        if is_empty v then [] else elim (parse_ip v) [ none ↦ [] | some ip ↦ ip ∷ [] ];
    peer_nets =
        let v = option_value options (codes "peer_cidr") in
        if is_empty v then [] else elim (parse_cidr v) [ none ↦ [] | some n ↦ n ∷ [] ];
  }

  -- The port is written if there is one and the record has none, or 0.
  unfoldable pub put_missing_port : ℕ → GenericMap → GenericMap
  unfolding port_missing
  put_missing_port port m =
      if ltb 0 port && port_missing (map_port_from_generic m (codes "SrcPort"))
      then put (codes "SrcPort") (uint16 port) m
      else m

  unfoldable pub write_peer : GenericMap → Bytes → ℕ → GenericMap
  unfolding put_missing_port
  write_peer m peer port =
      put_missing_port port
        (put (codes "SrcAddr") (str (ip_string peer)) (put (codes "Proto") (float64 (whole 6)) m))

  unfoldable pub apply_workload_plaintext_tuple : GenericMap → Bytes → ℕ → GenericMap
  unfolding write_peer
  apply_workload_plaintext_tuple m peer port =
      elim (valid_ip_string ext (get (codes "SrcAddr") m)) [
        | none ↦ write_peer m peer port
        | some src ↦ if eq_bytes src (ip_string peer) then write_peer m peer port else m
      ]

  -- The branch with no single peer.
  unfoldable pub enrich_port : GenericMap → ℕ → GenericMap
  unfolding port_known
  enrich_port m port =
      let written =
        put (codes "SrcPort") (uint16 port) (put (codes "Proto") (float64 (whole 6)) m) in
      if ltb 0 port
      then if port_known (map_port_from_generic m (codes "SrcPort")) then m else written
      else m

  unfoldable pub enrich_plaintext_from_capture_filters : GenericMap → CaptureFilters → GenericMap
  unfolding apply_workload_plaintext_tuple enrich_port single_capture_port single_capture_peer_ip
  enrich_plaintext_from_capture_filters m f =
      let port = single_capture_port f in
      let enriched : GenericMap = elim (single_capture_peer_ip f) [
        | some peer ↦ apply_workload_plaintext_tuple m peer port
        | none ↦ enrich_port m port
      ] in
      if plaintext_has_tuple ext m then m else enriched

  unfoldable pub ip_in_capture_net : Bytes → IpNet → Bool
  ip_in_capture_net ip n =
      if is_empty ip then false else elim (parse_ip ip) [ none ↦ false | some p ↦ net_contains n p ]

  -- The address, or the empty text where it is not valid.
  unfoldable pub ip_or_empty : Value → Bytes
  ip_or_empty v = elim (valid_ip_string ext v) [ none ↦ [] | some ip ↦ ip ]

  unfoldable pub port_matches : GenericMap → ℕ → Bool
  port_matches m p =
      let is_p = λ (key : Bytes). elim (map_port_from_generic m key) as (λ _. Bool) [
        | none ↦ false
        | some q ↦ q == p
      ] in
      is_p (codes "SrcPort") || is_p (codes "DstPort")

  unfoldable pub net_matches : GenericMap → IpNet → Bool
  unfolding ip_in_capture_net ip_or_empty
  net_matches m n =
      ip_in_capture_net (ip_or_empty (get (codes "SrcAddr") m)) n
      || ip_in_capture_net (ip_or_empty (get (codes "DstAddr") m)) n

  unfoldable pub wire_packet_matches_capture_filters : GenericMap → CaptureFilters → Bool
  unfolding active any
  wire_packet_matches_capture_filters m f =
      if not (active f)
      then false
      else if not (is_empty f.ports) && not (any (port_matches m) f.ports)
      then false
      else if not (is_empty f.peer_ips)
          && not (any (λ ip. wire_packet_has_ip ext m (ip_string ip)) f.peer_ips)
      then false
      else if not (is_empty f.peer_nets) && not (any (net_matches m) f.peer_nets)
      then false
      else true
