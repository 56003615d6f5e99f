-- ===== src/Score.antt =====
-- How well a wire packet fits a plaintext record: cmd/packet_capture_wire_buffer.go, the constants,
-- the two records and the functions from `receiveTimeDelta` to `scoreLooseEndpointMatch`.
pub mod Bonus
pub mod Direction
pub mod Compatible
pub mod Tiers
use netobserv_cli.Common.{
  ℕ, ◌+◌, ◌-◌, ◌*◌, ◌/◌, Bool, true, false, ◌&&◌, ◌||◌, List, [], ◌∷◌, ◌++◌, Option, none, some,
  ltb, leb, ◌==◌, if◌then◌else◌, not, length,
}
use netobserv_cli.Common.Int.{
  ℤ, pos, negsuc, ◌+ℤ◌, ◌-ℤ◌, neg, is_neg, leb_ℤ, ltb_ℤ, sub_ℕ, pos_part,
}
use netobserv_cli.Text.{Bytes, codes, eq_bytes, is_empty, contains, to_lower}
use netobserv_cli.GenericMap.{GenericMap, Value, get, as_string, string?, is_string}
use netobserv_cli.Extern.{Extern}
use netobserv_cli.Endpoints.{
  valid_ip_string, map_port_from_generic, plaintext_has_tuple, flow_tuple_from_map, tuples_equal,
  tuples_reverse_equal, plaintext_pod_endpoint, plaintext_peer_ip, wire_packet_has_ip,
  wire_packet_has_ip_port, wire_egress_from, wire_ingress_to,
}
use netobserv_cli.Filters.{CaptureFilters, active, ip_or_empty, wire_packet_matches_capture_filters}
use netobserv_cli.Plaintext.Payload.{plaintext_payload_bytes}
use netobserv_cli.Plaintext.Wire.{wire_tcp_payload_info}
use netobserv_cli.Plaintext.Annotation.{Time, positive_float}

-- Durations are integers of nanoseconds.
abbrev pub second : ℕ
second = 1_000_000_000

abbrev pub plaintext_correlation_window : ℕ
plaintext_correlation_window = 30 * second

abbrev pub plaintext_match_max_skew : ℕ
plaintext_match_max_skew = 5 * second

-- `plaintextMatchMinDelta` is minus this.
abbrev pub plaintext_match_min_delta : ℕ
plaintext_match_min_delta = 2 * second

abbrev pub score_strict_match_base : ℕ
score_strict_match_base = 100

abbrev pub score_remote_match_base : ℕ
score_remote_match_base = 75

abbrev pub score_loose_match_base : ℕ
score_loose_match_base = 50

abbrev pub score_filter_match_base : ℕ
score_filter_match_base = 50

abbrev pub score_ambiguity_margin : ℕ
score_ambiguity_margin = 5

abbrev pub score_payload_bonus : ℕ
score_payload_bonus = 20

abbrev pub score_payload_size_bonus : ℕ
score_payload_size_bonus = 5

abbrev pub score_time_bonus_max : ℕ
score_time_bonus_max = 10

pub record BufferedWirePacket : Type 0 where
  pub received_at : ℕ
  pub packet_time : Time
  pub generic_map : GenericMap
  pub frame : Bytes
  pub annotations : List Bytes
  pub packet_id : Option ℕ
  pub annotated : Bool

pub record PendingPlaintext : Type 0 where
  pub received_at : ℕ
  pub event_time : Time
  pub contents : GenericMap
  pub original : GenericMap
  pub id : ℕ
  pub connection_ambiguous : Bool

-- The score that rejects.
abbrev pub no_match : ℤ
no_match = negsuc 0

-- `int(d.Milliseconds())` of a duration that is not negative.
abbrev milliseconds : ℕ → ℕ
milliseconds d = d / 1_000_000

-- The distance of the two receive times.
unfoldable pub receive_time_delta : BufferedWirePacket → PendingPlaintext → ℕ
receive_time_delta pkt pt =
    if ltb pt.received_at pkt.received_at
    then pkt.received_at - pt.received_at
    else pt.received_at - pkt.received_at

-- `-2s <= eventTime - packetTime <= 5s`.
unfoldable pub event_times_correlated : ℕ → ℕ → Bool
unfolding ◌-ℤ◌
event_times_correlated event packet =
    let delta = pos event -ℤ pos packet in
    leb_ℤ (neg (pos plaintext_match_min_delta)) delta && leb_ℤ delta (pos plaintext_match_max_skew)

unfoldable pub times_correlated : BufferedWirePacket → PendingPlaintext → Bool
unfolding event_times_correlated receive_time_delta
times_correlated pkt pt =
    let by_receipt = leb (receive_time_delta pkt pt) plaintext_correlation_window in
    elim pkt.packet_time [
      | none ↦ by_receipt
      | some packet ↦ elim pt.event_time [
        | none ↦ by_receipt
        | some event ↦ event_times_correlated event packet
      ]
    ]

-- `scoreTimeBonusMax * (limit - delta) / limit`, both in milliseconds.
unfoldable pub proximity : ℕ → ℕ → ℕ
proximity limit delta = score_time_bonus_max * milliseconds (limit - delta) / milliseconds limit

unfoldable pub event_time_bonus : ℕ → ℕ → ℕ
unfolding proximity
event_time_bonus event packet =
    let early = ltb event packet in
    let delta = if early then packet - event else event - packet in
    let limit = if early then plaintext_match_min_delta else plaintext_match_max_skew in
    if leb delta limit then proximity limit delta else 0

unfoldable pub time_correlation_bonus : BufferedWirePacket → PendingPlaintext → ℕ
unfolding event_time_bonus proximity receive_time_delta
time_correlation_bonus pkt pt =
    let recv_delta = receive_time_delta pkt pt in
    let by_receipt =
      if leb recv_delta plaintext_correlation_window
      then proximity plaintext_correlation_window recv_delta
      else 0 in
    elim pkt.packet_time [
      | none ↦ by_receipt
      | some packet ↦ elim pt.event_time [
        | none ↦ by_receipt
        | some event ↦ event_time_bonus event packet
      ]
    ]

-- The pod's name and owner on one side, if that side is a pod.
unfoldable pub pod_identity_at : Bytes → GenericMap → Bytes × Bytes
pod_identity_at side m =
    if eq_bytes (as_string (get (side ++ codes "K8S_Type") m)) (codes "Pod")
    then (
      as_string (get (side ++ codes "K8S_Name") m),
      as_string (get (side ++ codes "K8S_OwnerName") m),
    )
    else ([], [])

unfoldable pub wire_pod_identity : GenericMap → Bytes × Bytes
unfolding pod_identity_at
wire_pod_identity m =
    let (name, owner) = pod_identity_at (codes "Dst") m in
    if not (is_empty name) || not (is_empty owner)
    then (name, owner)
    else pod_identity_at (codes "Src") m

-- The libraries that a pod of this identity may use.
unfoldable pub tls_source_fits : Bytes → Bytes → Bool
unfolding contains
tls_source_fits identity tls_source =
    if contains (codes "openssl") identity
    then eq_bytes tls_source (codes "openssl") || eq_bytes tls_source (codes "ktls")
    else if contains (codes "gotls") identity
    then eq_bytes tls_source (codes "gotls")
    else if contains (codes "ktls") identity
    then eq_bytes tls_source (codes "ktls") || eq_bytes tls_source (codes "openssl")
    else true

unfoldable pub plaintext_wire_pod_compatible : BufferedWirePacket → GenericMap → Bool
unfolding wire_pod_identity tls_source_fits to_lower
plaintext_wire_pod_compatible pkt pt =
    let tls_source = as_string (get (codes "TLSSource") pt) in
    let (name, owner) = wire_pod_identity pkt.generic_map in
    if is_empty tls_source
    then true
    else if is_empty name && is_empty owner
    then true
    else tls_source_fits (to_lower (name ++ codes " " ++ owner)) tls_source

-- What a match adds where the record's direction fits; without a direction, nothing.
unfoldable pub direction_bonus : Value → Bool → Bool → ℕ
unfolding is_string
direction_bonus dir fits_write fits_read =
    (if is_string (codes "write") dir && fits_write then 5 else 0)
    + (if is_string (codes "read") dir && fits_read then 5 else 0)

module _ (ext : Extern) where
  -- The record's endpoint on one side against the packet's on the side that it stands for.
  unfoldable pub side_compatible : Bytes → Bytes → GenericMap → GenericMap → Bool
  side_compatible side wire_side wire pt =
      elim (valid_ip_string ext (get (side ++ codes "Addr") pt)) [
        | none ↦ true
        | some ip ↦
            eq_bytes (ip_or_empty ext (get (wire_side ++ codes "Addr") wire)) ip
            && elim (map_port_from_generic pt (side ++ codes "Port")) as (λ _. Bool) [
              | none ↦ true
              | some port ↦
                  if ltb 0 port
                  then elim (map_port_from_generic wire (wire_side ++ codes "Port"))
                      as (λ _. Bool) [ none ↦ false | some wire_port ↦ wire_port == port ]
                  else true
            ]
      ]

  unfoldable pub plaintext_endpoints_compatible : GenericMap → GenericMap → Bool
  unfolding side_compatible is_string ip_or_empty
  plaintext_endpoints_compatible wire pt =
      let reading = is_string (codes "read") (get (codes "Direction") pt) in
      let wire_src = if reading then codes "Dst" else codes "Src" in
      let wire_dst = if reading then codes "Src" else codes "Dst" in
      side_compatible (codes "Src") wire_src wire pt
      && side_compatible (codes "Dst") wire_dst wire pt

  -- `write` records fit packets that leave the local endpoint, `read` records those that reach it.
  unfoldable pub direction_allows : GenericMap → GenericMap → Bool
  unfolding is_string
  direction_allows wire pt = elim (plaintext_pod_endpoint ext pt) [
    | none ↦ true
    | some (pod_ip, port) ↦
        if is_string (codes "write") (get (codes "Direction") pt)
        then wire_egress_from ext wire pod_ip port
        else if is_string (codes "read") (get (codes "Direction") pt)
        then wire_ingress_to ext wire pod_ip port
        else true
  ]

  unfoldable pub score_capture_filter_wire_match : GenericMap → CaptureFilters → ℤ
  score_capture_filter_wire_match wire filters =
      if not (active filters) || not (wire_packet_matches_capture_filters ext wire filters)
      then no_match
      else pos (
          score_filter_match_base
          + (if is_empty filters.ports then 0 else 1)
          + (if is_empty filters.peer_ips && is_empty filters.peer_nets then 0 else 1))

  unfoldable pub score_strict_tuple_match : GenericMap → GenericMap → ℤ
  unfolding direction_bonus
  score_strict_tuple_match wire pt = elim (flow_tuple_from_map ext pt) [
    | none ↦ no_match
    | some pt_tuple ↦ elim (flow_tuple_from_map ext wire) [
      | none ↦ no_match
      | some wire_tuple ↦
          let same = tuples_equal wire_tuple pt_tuple in
          let reverse = tuples_reverse_equal wire_tuple pt_tuple in
          if same || reverse
          then pos
              (score_strict_match_base + direction_bonus (get (codes "Direction") pt) same reverse)
          else no_match
    ]
  ]

  unfoldable pub score_remote_endpoint_match : GenericMap → GenericMap → ℤ
  unfolding direction_bonus
  score_remote_endpoint_match wire pt = elim (plaintext_pod_endpoint ext pt) [
    | none ↦ no_match
    | some (pod_ip, port) ↦ elim (plaintext_peer_ip ext pt) [
      | none ↦ no_match
      | some peer_ip ↦
          let has_peer = wire_packet_has_ip ext wire peer_ip in
          if eq_bytes peer_ip pod_ip
            || not (wire_packet_has_ip_port ext wire pod_ip port)
            || not has_peer
          then no_match
          else pos (
              score_remote_match_base
              + direction_bonus (get (codes "Direction") pt)
                  (wire_egress_from ext wire pod_ip port && has_peer)
                  (wire_ingress_to ext wire pod_ip port && has_peer))
    ]
  ]

  unfoldable pub score_loose_endpoint_match : GenericMap → GenericMap → ℤ
  unfolding direction_bonus
  score_loose_endpoint_match wire pt = elim (plaintext_pod_endpoint ext pt) [
    | none ↦ no_match
    | some (pod_ip, port) ↦
        if wire_packet_has_ip_port ext wire pod_ip port
        then pos (
            score_loose_match_base
            + direction_bonus (get (codes "Direction") pt) (wire_egress_from ext wire pod_ip port)
                (wire_ingress_to ext wire pod_ip port))
        else no_match
  ]

  unfoldable pub plaintext_wire_payload_len : GenericMap → ℕ
  unfolding positive_float
  plaintext_wire_payload_len pt = elim (positive_float (get (codes "PlaintextLen") pt)) [
    | some n ↦ n
    | none ↦ length (plaintext_payload_bytes ext pt)
  ]

  unfoldable pub apply_wire_payload_score_adjustments :
      BufferedWirePacket → PendingPlaintext → ℕ → ℤ
  unfolding plaintext_wire_payload_len
  apply_wire_payload_score_adjustments pkt pt score = elim (wire_tcp_payload_info ext pkt.frame) [
    | none ↦ pos score
    | some tcp_len ↦
        let plain_len = plaintext_wire_payload_len pt.contents in
        if tcp_len == 0
        then no_match
        else pos (
            score
            + score_payload_bonus
            + (if ltb 0 plain_len && leb plain_len tcp_len then score_payload_size_bonus else 0))
  ]

  -- The first of the tiers that matches.
  unfoldable pub first_match : ℤ → ℤ → ℤ
  first_match (pos s) later = pos s
  first_match (negsuc s) later = later

  -- A record with a whole tuple is matched by it alone.
  unfoldable pub base_score : GenericMap → GenericMap → CaptureFilters → ℤ
  unfolding score_strict_tuple_match score_remote_endpoint_match score_loose_endpoint_match
      score_capture_filter_wire_match first_match
  base_score wire pt filters =
      let strict = score_strict_tuple_match wire pt in
      if plaintext_has_tuple ext pt
      then strict
      else first_match strict (
          first_match (score_remote_endpoint_match wire pt) (
            first_match (score_loose_endpoint_match wire pt)
              (score_capture_filter_wire_match wire filters)))

  -- The tests that reject a packet before any tier is tried.
  unfoldable pub admissible : BufferedWirePacket → PendingPlaintext → Bool
  unfolding times_correlated plaintext_wire_pod_compatible plaintext_endpoints_compatible
      direction_allows
  admissible pkt pt =
      times_correlated pkt pt
      && plaintext_wire_pod_compatible pkt pt.contents
      && plaintext_endpoints_compatible pkt.generic_map pt.contents
      && direction_allows pkt.generic_map pt.contents

  unfoldable pub with_bonus : BufferedWirePacket → PendingPlaintext → ℤ → ℤ
  unfolding apply_wire_payload_score_adjustments
  with_bonus pkt pt (pos base) =
      apply_wire_payload_score_adjustments pkt pt (base + time_correlation_bonus pkt pt)
  with_bonus pkt pt (negsuc n) = no_match

  unfoldable pub score_plaintext_wire_match :
      BufferedWirePacket → PendingPlaintext → CaptureFilters → ℤ
  unfolding admissible base_score with_bonus
  score_plaintext_wire_match pkt pt filters =
      if admissible pkt pt
      then with_bonus pkt pt (base_score pkt.generic_map pt.contents filters)
      else no_match

-- `minAnnotationScore`: the base of the best tier that the record's fields allow.
unfoldable pub min_annotation_score : Extern → GenericMap → CaptureFilters → ℕ
min_annotation_score ext m filters =
    let without_endpoint =
      if active filters then score_filter_match_base else score_loose_match_base in
    if plaintext_has_tuple ext m
    then score_strict_match_base
    else elim (plaintext_pod_endpoint ext m) [
      | none ↦ without_endpoint
      | some (pod_ip, port) ↦
          if not (is_empty pod_ip) && ltb 0 port
          then elim (plaintext_peer_ip ext m) as (λ _. ℕ) [
            | none ↦ score_loose_match_base
            | some peer ↦
                if eq_bytes peer pod_ip then score_loose_match_base else score_remote_match_base
          ]
          else without_endpoint
    ]
