-- ===== src/Tests.antt =====
-- Concrete records, packets and histories, and the runs on them.
mod Capture
mod Table
mod Tls
use netobserv_cli.Common.{
  All, Bool, List, [], ap, arith, drop, false, get_elem?, if◌then◌else◌, is_some, length, none, not,
  refl, set, some, subst, take, true, ℕ, ◌+◌, ◌<◌, ◌||◌, ◌↔◌, ◌∷◌, ◌≡◌, ◌≢◌, ◌≤◌, ◌⊎◌,
}
use netobserv_cli.Common.Int.{pos, ℤ, ◌+ℤ◌, ◌<ℤ◌, ◌≤ℤ◌}
use netobserv_cli.Endpoints.{
  FlowTuple, flow_tuple_from_map, map_port_from_generic, overlay_wire_tuple_to_plaintext,
  plaintext_has_tuple, plaintext_peer_ip, plaintext_pod_endpoint, port_of_value, tuples_equal,
  tuples_reverse_equal, valid_ip_string, wire_egress_from, wire_ingress_to, wire_packet_has_ip,
  wire_packet_has_ip_port,
}
use netobserv_cli.Endpoints.Overlay.{IpLaws, flow_tuple-overlay, is_no_address}
use netobserv_cli.Endpoints.Ports.{IsWidth, port_of_value-le}
use netobserv_cli.Endpoints.Tuples.{
  plaintext_has_tuple-flow_tuple, reversed, tuples_reverse_equal_iff,
}
use netobserv_cli.Extern.{Extern, absent, tcp}
use netobserv_cli.Filters.{
  CaptureFilters, enrich_plaintext_from_capture_filters, parse_capture_filters, port_known,
}
use netobserv_cli.Filters.Enrichment.{
  enrich_address_known, enrich_others, enrich_port_known, is_enriched_key,
}
use netobserv_cli.Filters.Options.{IsPortList, parse_capture_filters-IsPortList}
use netobserv_cli.GenericMap.{GenericMap, as_string, get, is_string, lookup, str, uint16}
use netobserv_cli.GenericMap.Laws.{HasUniqueKeys}
use netobserv_cli.Plaintext.Display.{ellipsize_plaintext_display}
use netobserv_cli.Plaintext.Display.Laws.{Cut, ellipsize_cases}
use netobserv_cli.Plaintext.Payload.{
  plaintext_payload_bytes, search_marker, slice_json_object, strip_leading_application_prefix,
}
use netobserv_cli.Plaintext.Payload.Objects.{Closed, slice_json_object-Closed}
use netobserv_cli.Plaintext.Payload.Unwrap.{Stripped, strip-Stripped}
use netobserv_cli.Plaintext.Unmatched.{
  is_endpoint_key, plaintext_tuple_verified, prepare_unmatched_plaintext, swap_sides,
}
use netobserv_cli.Plaintext.Unmatched.Laws.{
  flow_tuple-swap_sides, lookup-prepare_unmatched, other_side, reverse_tuple,
}
use netobserv_cli.Plaintext.Wire.{wire_tcp_payload_info}
use netobserv_cli.Score.{
  BufferedWirePacket, PendingPlaintext, min_annotation_score, plaintext_endpoints_compatible,
  plaintext_wire_pod_compatible, score_loose_endpoint_match, score_plaintext_wire_match,
  score_remote_endpoint_match, score_strict_tuple_match, time_correlation_bonus, times_correlated,
}
use netobserv_cli.Score.Bonus.{time_correlation_bonus-le}
use netobserv_cli.Score.Compatible.{AreClose, score_compatible}
use netobserv_cli.Filters.{ip_or_empty}
use netobserv_cli.Score.Direction.{Connected, score-Connected, score_read, score_written}
use netobserv_cli.Score.Tiers.{score_in_tier, time_bonus_keeps_tiers}
use netobserv_cli.Text.{Bytes, codes, eq_bytes, has_prefix, is_empty}
use netobserv_cli.WireBuffer.Annotate.{
  Attempt, annotate_at, annotate_found, annotate_packet, annotated_plaintext, attempt_on, chosen,
  is_k8s_endpoint_key, must_wait, overlay_correlated_wire_to_plaintext, try_annotate, usable,
}
use netobserv_cli.WireBuffer.Best.{search_all_nothing}
use netobserv_cli.WireBuffer.Conservation.{sent_packets, sent_records}
use netobserv_cli.WireBuffer.Correct.{
  annotated-Connected, annotated_effect, search_clear_lead, search_highest,
}
use netobserv_cli.WireBuffer.Defs.{
  Buffer, Search, best_wire_match, is_another, note_ambiguity, note_connection, note_packet,
  prepare_plaintext_for_match, rank, scores_ambiguous, search_all, search_from, search_round,
}
use netobserv_cli.WireBuffer.Expiry.{flush_expired_fresh}
use netobserv_cli.WireBuffer.Exports.{IsTrue}
use netobserv_cli.WireBuffer.History.{
  arrived, arrived_frame, arrived_in, flush_all_empty, history_exactly_once, received, received_in,
}
use netobserv_cli.WireBuffer.Identity.{Arrival}
use netobserv_cli.WireBuffer.Limits.{packets_limited}
use netobserv_cli.WireBuffer.Matched.{flow_tuple-annotated}
use netobserv_cli.WireBuffer.Operations.{
  Call, expired, flush_all, flush_expired, new_wire_packet_buffer, packet, plaintext, run, tick,
}
use netobserv_cli.WireBuffer.Overlay.{lookup-overlay_correlated}
use netobserv_cli.WireBuffer.Provenance.{AllReceived, IsReceived, flush_all-IsTrue}

-- Packages that accept every text that is not empty, and decode a frame to its payload.
abbrev sample_extern : Extern
sample_extern = record {
  parse_ip = λ s. if is_empty s then none else some s;
  ip_string = λ ip. ip;
  is_unspecified = λ ip. eq_bytes ip (codes "0.0.0.0") || eq_bytes ip (codes "::");
  parse_cidr = λ s. none;
  net_contains = λ n ip. false;
  decode_base64 = λ s. if is_empty s then none else some s;
  json_object = λ s. none;
  json_string = λ s. none;
  tcp_layer = λ layer frame. if is_empty frame then absent else tcp frame;
  print_value = λ v. [];
  is_print = λ r. true;
}

abbrev no_filters : CaptureFilters
no_filters = record { ports = []; peer_ips = []; peer_nets = [] }

abbrev wire_map : GenericMap
wire_map =
    (codes "SrcAddr", str (codes "10.0.0.1"))
    ∷ (codes "SrcPort", uint16 4000)
    ∷ (codes "DstAddr", str (codes "10.0.0.2"))
    ∷ (codes "DstPort", uint16 443)
    ∷ (codes "SrcK8S_Name", str (codes "client"))
    ∷ []

abbrev written_map : GenericMap
written_map =
    (codes "Direction", str (codes "write"))
    ∷ (codes "TupleSource", str (codes "kernel"))
    ∷ (codes "SrcAddr", str (codes "10.0.0.1"))
    ∷ (codes "SrcPort", uint16 4000)
    ∷ (codes "DstAddr", str (codes "10.0.0.2"))
    ∷ (codes "DstPort", uint16 443)
    ∷ []

abbrev read_map : GenericMap
read_map =
    (codes "Direction", str (codes "read"))
    ∷ (codes "TupleSource", str (codes "kernel"))
    ∷ (codes "SrcAddr", str (codes "10.0.0.2"))
    ∷ (codes "SrcPort", uint16 443)
    ∷ (codes "DstAddr", str (codes "10.0.0.1"))
    ∷ (codes "DstPort", uint16 4000)
    ∷ []

abbrev sample_packet : BufferedWirePacket
sample_packet = record {
  received_at = 5;
  packet_time = none;
  generic_map = wire_map;
  frame = codes "abc";
  annotations = [];
  packet_id = none;
  annotated = false;
}

abbrev sample_record : GenericMap → PendingPlaintext
sample_record m = record {
  received_at = 7;
  event_time = none;
  contents = m;
  original = m;
  id = 7;
  connection_ambiguous = false;
}

abbrev written_score : ℤ
written_score =
    score_plaintext_wire_match sample_extern sample_packet (sample_record written_map) no_filters

abbrev read_score : ℤ
read_score =
    score_plaintext_wire_match sample_extern sample_packet (sample_record read_map) no_filters

written_score_value : written_score ≡ pos 134
unfolding score_plaintext_wire_match as_string get eq_bytes valid_ip_string map_port_from_generic
    plaintext_pod_endpoint wire_egress_from plaintext_has_tuple flow_tuple_from_map tuples_equal
    wire_tcp_payload_info time_correlation_bonus plaintext_payload_bytes
written_score_value = refl

read_score_value : read_score ≡ pos 134
unfolding score_plaintext_wire_match as_string get eq_bytes valid_ip_string map_port_from_generic
    plaintext_pod_endpoint wire_ingress_to plaintext_has_tuple flow_tuple_from_map tuples_equal
    tuples_reverse_equal wire_tcp_payload_info time_correlation_bonus plaintext_payload_bytes
read_score_value = refl

written_has_tuple : plaintext_has_tuple sample_extern written_map ≡ true
unfolding plaintext_has_tuple valid_ip_string get eq_bytes map_port_from_generic
written_has_tuple = refl

written_endpoint : plaintext_pod_endpoint sample_extern written_map ≡ some (codes "10.0.0.1", 4000)
unfolding plaintext_pod_endpoint valid_ip_string get eq_bytes map_port_from_generic
written_endpoint = refl

read_endpoint : plaintext_pod_endpoint sample_extern read_map ≡ some (codes "10.0.0.2", 443)
unfolding plaintext_pod_endpoint valid_ip_string get eq_bytes map_port_from_generic
read_endpoint = refl

written_is_written : is_string (codes "write") (get (codes "Direction") written_map) ≡ true
unfolding is_string get eq_bytes
written_is_written = refl

read_is_read : is_string (codes "read") (get (codes "Direction") read_map) ≡ true
unfolding is_string get eq_bytes
read_is_read = refl

abbrev written_record : PendingPlaintext
written_record = sample_record written_map

abbrev prepared_record : PendingPlaintext
prepared_record = prepare_plaintext_for_match sample_extern no_filters written_record

prepared_has_tuple : plaintext_has_tuple sample_extern prepared_record.contents ≡ true
unfolding plaintext_has_tuple prepare_plaintext_for_match valid_ip_string get
    enrich_plaintext_from_capture_filters eq_bytes map_port_from_generic
prepared_has_tuple = refl

abbrev two_packets : List BufferedWirePacket
two_packets = record sample_packet { annotated = true } ∷ sample_packet ∷ []

-- A clock that reads one more each time.
abbrev pub clock : ℕ → ℕ → ℕ
clock start i = start + i

abbrev sample_attempt : Attempt
sample_attempt = try_annotate sample_extern 30 no_filters false (clock 9) two_packets written_record

sample_attempt_done : sample_attempt.done ≡ true
unfolding try_annotate attempt_on chosen best_wire_match prepare_plaintext_for_match
    enrich_plaintext_from_capture_filters scores_ambiguous note_ambiguity min_annotation_score
    annotate_at annotate_found usable must_wait search_all search_from search_round rank note_packet
    note_connection is_another score_plaintext_wire_match as_string get eq_bytes valid_ip_string
    map_port_from_generic plaintext_pod_endpoint wire_egress_from plaintext_has_tuple
    flow_tuple_from_map tuples_equal wire_tcp_payload_info time_correlation_bonus
    plaintext_payload_bytes
sample_attempt_done = refl

-- Another connection.
abbrev other_map : GenericMap
other_map =
    (codes "SrcAddr", str (codes "10.0.0.7"))
    ∷ (codes "SrcPort", uint16 4000)
    ∷ (codes "DstAddr", str (codes "10.0.0.2"))
    ∷ (codes "DstPort", uint16 443)
    ∷ []

abbrev other_packet : BufferedWirePacket
other_packet = record sample_packet { generic_map = other_map }

abbrev other_score : ℤ
other_score = score_plaintext_wire_match sample_extern other_packet written_record no_filters

-- The packet of the other connection is not annotated either.
abbrev mixed_packets : List BufferedWirePacket
mixed_packets = other_packet ∷ sample_packet ∷ []

abbrev mixed_search : Search
mixed_search = search_all sample_extern no_filters mixed_packets written_record

mixed_search_found : mixed_search.best_idx ≡ some 1
unfolding search_all search_from search_round rank note_packet note_connection is_another
    score_plaintext_wire_match as_string get eq_bytes valid_ip_string map_port_from_generic
    plaintext_pod_endpoint wire_egress_from plaintext_has_tuple flow_tuple_from_map tuples_equal
    wire_tcp_payload_info time_correlation_bonus plaintext_payload_bytes
mixed_search_found = refl

mixed_search_clear : scores_ambiguous mixed_search ≡ false
unfolding scores_ambiguous search_all search_from search_round rank note_packet note_connection
    is_another score_plaintext_wire_match as_string get eq_bytes valid_ip_string
    map_port_from_generic plaintext_pod_endpoint wire_egress_from plaintext_has_tuple
    flow_tuple_from_map tuples_equal wire_tcp_payload_info time_correlation_bonus
    plaintext_payload_bytes
mixed_search_clear = refl

other_search_nothing :
    (search_all sample_extern no_filters (sample_packet ∷ []) (sample_record other_map)).best_idx
    ≡ none
unfolding search_all search_from search_round rank note_packet note_connection is_another
    score_plaintext_wire_match as_string get eq_bytes valid_ip_string map_port_from_generic
    plaintext_pod_endpoint wire_egress_from plaintext_has_tuple flow_tuple_from_map tuples_equal
    wire_tcp_payload_info time_correlation_bonus plaintext_payload_bytes plaintext_peer_ip
    wire_ingress_to wire_packet_has_ip wire_packet_has_ip_port
other_search_nothing = refl

abbrev sample_buffer : Buffer
sample_buffer = record {
  window = 30;
  has_writer = true;
  has_finalizer = true;
  filters = no_filters;
  packets = two_packets;
  pending = written_record ∷ [];
  trace = [];
}

abbrev sample_calls : List (ℕ × (ℕ → ℕ) × Call)
sample_calls =
    (10, clock 10, packet wire_map (codes "abc"))
    ∷ (11, clock 11, plaintext written_map 7)
    ∷ (90, clock 90, tick)
    ∷ (91, clock 92, packet wire_map [])
    ∷ []

abbrev any_packet : Arrival → Bool
any_packet p = true

abbrev sample_closed : Buffer
sample_closed =
    flush_all sample_extern (clock 99)
      (run sample_extern sample_calls (new_wire_packet_buffer 30 true true no_filters))

-- One packet and one record came in (the last packet does not decode).
history_exactly_once_example :
    (sent_packets any_packet sample_closed.trace ≡ 1) × (sent_records 7 sample_closed.trace ≡ 1)
unfolding arrived arrived_in arrived_frame received received_in
history_exactly_once_example =
    history_exactly_once sample_extern any_packet 7 30 (clock 99) no_filters sample_calls

packets_limited_example :
    length (run sample_extern sample_calls (new_wire_packet_buffer 30 true true no_filters)).packets
    ≤ 20000
packets_limited_example = packets_limited sample_extern 30 true true no_filters sample_calls

flush_expired_fresh_example :
    All
      (λ pkt. 20 < pkt.received_at + 30)
      (flush_expired sample_extern 20 (clock 21) sample_buffer).packets
    × All
        (λ pt. 20 < pt.received_at + 30)
        (flush_expired sample_extern 20 (clock 21) sample_buffer).pending
flush_expired_fresh_example = flush_expired_fresh sample_extern 20 (clock 21) sample_buffer

annotated-Connected_example :
    (i : ℕ) × (pkt : BufferedWirePacket) × (get_elem? two_packets i ≡ some pkt)
    × (pkt.annotated ≡ false)
    × Connected sample_extern pkt prepared_record.contents
annotated-Connected_example =
    annotated-Connected sample_extern 30 no_filters false (clock 9) two_packets written_record
      sample_attempt_done prepared_has_tuple

annotated_effect_example :
    (i : ℕ) × (pkt : BufferedWirePacket) × (get_elem? two_packets i ≡ some pkt)
    × (pkt.annotated ≡ false)
    × (pos (min_annotation_score sample_extern prepared_record.contents no_filters)
        ≤ℤ score_plaintext_wire_match sample_extern pkt prepared_record no_filters)
    × (must_wait sample_extern 30 false (clock 9) prepared_record pkt ≡ false)
    × (sample_attempt.pt ≡ annotated_plaintext sample_extern prepared_record pkt)
    × (sample_attempt.packets
        ≡ set two_packets i (annotate_packet sample_extern prepared_record pkt))
annotated_effect_example =
    annotated_effect sample_extern 30 no_filters false (clock 9) two_packets written_record
      sample_attempt_done

search_highest_example : other_score ≤ℤ written_score
search_highest_example =
    search_highest sample_extern no_filters written_record mixed_packets 1 0 sample_packet
      other_packet mixed_search_found refl refl refl

search_clear_lead_example :
    (◌≡◌ {A = ℕ} 1 0) ⊎ (other_score <ℤ pos 0) ⊎ (other_score +ℤ pos 5 <ℤ written_score)
search_clear_lead_example =
    search_clear_lead sample_extern no_filters written_record mixed_packets 1 0 sample_packet
      other_packet mixed_search_found mixed_search_clear refl refl refl

score-Connected_example : Connected sample_extern sample_packet written_map
score-Connected_example =
    score-Connected sample_extern sample_packet written_record no_filters 134 written_score_value
      written_has_tuple

written_source :
    (is_string (codes "read") (get (codes "Direction") written_map) ≡ false)
    × (valid_ip_string sample_extern (get (codes "SrcAddr") written_map) ≡ some (codes "10.0.0.1"))
    × (map_port_from_generic written_map (codes "SrcPort") ≡ some 4000)
unfolding is_string get eq_bytes valid_ip_string map_port_from_generic
written_source = (refl, refl, refl)

score_compatible_example :
    AreClose written_record.event_time sample_packet.packet_time written_record.received_at
      sample_packet.received_at
    × (ip_or_empty sample_extern (get (codes "SrcAddr") wire_map) ≡ codes "10.0.0.1")
    × (map_port_from_generic wire_map (codes "SrcPort") ≡ some 4000)
    × (wire_tcp_payload_info sample_extern (codes "abc") ≢ some 0)
score_compatible_example =
    score_compatible sample_extern sample_packet written_record no_filters 134 true false
      (codes "10.0.0.1") 4000 written_score_value written_source.0 written_source.1 written_source.2
      (omega arith)

score_in_tier_example :
    ((if plaintext_has_tuple sample_extern written_map then 100 else 50) ≤ 134)
    × (134 ≤ (if plaintext_has_tuple sample_extern written_map then 140 else 115))
score_in_tier_example =
    score_in_tier sample_extern sample_packet written_record no_filters 134 written_score_value

read_map_unique : HasUniqueKeys read_map
unfolding lookup eq_bytes
read_map_unique = (refl, (refl, (refl, (refl, (refl, (refl, tt))))))

wire_map_unique : HasUniqueKeys wire_map
unfolding lookup eq_bytes
wire_map_unique = (refl, (refl, (refl, (refl, (refl, tt)))))

lookup-prepare_unmatched_example :
    lookup (codes "SrcPort") (prepare_unmatched_plaintext sample_extern read_map) ≡ (
      if not (plaintext_tuple_verified sample_extern read_map)
      then (if is_endpoint_key (codes "SrcPort") then none else lookup (codes "SrcPort") read_map)
      else (if is_string (codes "read") (get (codes "Direction") read_map)
          then lookup (other_side (codes "SrcPort")) read_map
          else lookup (codes "SrcPort") read_map))
lookup-prepare_unmatched_example =
    lookup-prepare_unmatched sample_extern read_map (codes "SrcPort") read_map_unique

flow_tuple-swap_sides_example :
    flow_tuple_from_map sample_extern (swap_sides read_map)
    ≡ reverse_tuple sample_extern (flow_tuple_from_map sample_extern read_map)
flow_tuple-swap_sides_example = flow_tuple-swap_sides sample_extern read_map read_map_unique

lookup-overlay_correlated_example :
    lookup
      (codes "SrcK8S_Name")
      (overlay_correlated_wire_to_plaintext sample_extern written_map wire_map)
    ≡ some (str (codes "client"))
unfolding is_k8s_endpoint_key has_prefix lookup eq_bytes
lookup-overlay_correlated_example =
    lookup-overlay_correlated sample_extern (codes "SrcK8S_Name") written_map wire_map
      wire_map_unique

direction_not_enriched : is_enriched_key (codes "Direction") ≡ false
unfolding is_enriched_key eq_bytes
direction_not_enriched = refl

parse_capture_filters-IsPortList_example :
    IsPortList (parse_capture_filters sample_extern (codes "port=443|--dport=8080|sport=443")).ports
parse_capture_filters-IsPortList_example =
    parse_capture_filters-IsPortList sample_extern (codes "port=443|--dport=8080|sport=443")

plaintext_has_tuple-flow_tuple_example :
    plaintext_has_tuple sample_extern wire_map
    ≡ is_some (flow_tuple_from_map sample_extern wire_map)
plaintext_has_tuple-flow_tuple_example = plaintext_has_tuple-flow_tuple sample_extern wire_map

abbrev sample_tuple : FlowTuple
sample_tuple = record {
  src_ip = codes "10.0.0.1";
  dst_ip = codes "10.0.0.2";
  src_port = 4000;
  dst_port = 443;
}

sample_port_text : port_of_value (str (codes "443(https)")) ≡ some 443
unfolding port_of_value
sample_port_text = refl

sample_text-IsWidth : IsWidth (str (codes "443(https)"))
unfolding IsWidth
sample_text-IsWidth = tt

-- The letter e with an accent takes two bytes.
abbrev accented : Bytes
accented = b'a' ∷ 0xC3 ∷ 0xA9 ∷ b'b' ∷ []

ellipsize_cases_example :
    ((length accented ≤ 2) × (ellipsize_plaintext_display accented 2 ≡ accented))
    ⊎ ((2 < length accented) × Cut accented 2)
ellipsize_cases_example = ellipsize_cases accented 2 (omega arith)

strip-Stripped_example :
    Stripped (codes "xxGET /") (strip_leading_application_prefix (codes "xxGET /"))
strip-Stripped_example = strip-Stripped (codes "xxGET /")

-- The relation that holds of the one record of the sample history.
abbrev SampleReceived : ℕ → GenericMap → Type 0
SampleReceived id m = (id ≡ 7) × (m ≡ written_map)

sample_calls_received : AllReceived sample_extern SampleReceived sample_calls
unfolding IsReceived
sample_calls_received = (tt, ((refl, refl), (tt, (tt, tt))))

flush_all-IsTrue_example : All (IsTrue sample_extern SampleReceived) sample_closed.trace
flush_all-IsTrue_example =
    flush_all-IsTrue sample_extern SampleReceived 30 (clock 99) true true no_filters sample_calls
      sample_calls_received

sample_reparse :
    (s ip : Bytes)
    → sample_extern.parse_ip s ≡ some ip
    → sample_extern.parse_ip (sample_extern.ip_string ip) ≡ some ip
sample_reparse [] ip e = cc
sample_reparse (c ∷ s) ip e =
    let same : c ∷ s ≡ ip = cc in subst (λ x. sample_extern.parse_ip x ≡ some x) same refl

sample_printed :
    (s ip : Bytes)
    → sample_extern.parse_ip s ≡ some ip
    → sample_extern.is_unspecified ip ≡ false
    → is_no_address (sample_extern.ip_string ip) ≡ false
unfolding is_no_address
sample_printed [] ip e u = cc
sample_printed (c ∷ s) ip e u =
    let same : ip ≡ c ∷ s = cc in let full : is_empty ip ≡ false = ap is_empty same in ground arith

sample_laws : IpLaws sample_extern
sample_laws = record { reparse = sample_reparse; printed = sample_printed }

wire_map_tuple : flow_tuple_from_map sample_extern wire_map ≡ some sample_tuple
unfolding flow_tuple_from_map valid_ip_string map_port_from_generic get eq_bytes
wire_map_tuple = refl

flow_tuple-annotated_example :
    flow_tuple_from_map sample_extern
      (annotated_plaintext sample_extern (sample_record other_map) sample_packet).contents
    ≡ some sample_tuple
flow_tuple-annotated_example =
    flow_tuple-annotated sample_extern sample_laws (sample_record other_map) sample_packet
      sample_tuple wire_map_unique wire_map_tuple

written_strict : score_strict_tuple_match sample_extern wire_map written_map ≡ pos 105
unfolding score_strict_tuple_match flow_tuple_from_map valid_ip_string map_port_from_generic get
    eq_bytes tuples_equal
written_strict = refl

written_remote : score_remote_endpoint_match sample_extern wire_map written_map ≡ pos 80
unfolding score_remote_endpoint_match plaintext_pod_endpoint valid_ip_string get eq_bytes
    map_port_from_generic plaintext_peer_ip wire_packet_has_ip_port wire_packet_has_ip
    wire_egress_from
written_remote = refl

written_loose : score_loose_endpoint_match sample_extern wire_map written_map ≡ pos 55
unfolding score_loose_endpoint_match plaintext_pod_endpoint valid_ip_string get eq_bytes
    map_port_from_generic plaintext_peer_ip wire_packet_has_ip_port wire_packet_has_ip
    wire_egress_from
written_loose = refl

time_bonus_keeps_tiers_example :
    (80 + time_correlation_bonus sample_packet written_record
      < 105 + time_correlation_bonus sample_packet written_record)
    × (55 + time_correlation_bonus sample_packet written_record
        < 80 + time_correlation_bonus sample_packet written_record)
time_bonus_keeps_tiers_example =
    time_bonus_keeps_tiers sample_extern sample_packet sample_packet sample_packet written_record
      105 80 55 written_strict written_remote written_loose

-- A brace in quoted text does not close the object.
abbrev quoted_brace : Bytes
quoted_brace = codes "x{\"a\":\"}\"}y"

quoted_brace_object : slice_json_object quoted_brace 1 ≡ some (codes "{\"a\":\"}\"}")
unfolding slice_json_object
quoted_brace_object = refl
