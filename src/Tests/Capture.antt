-- ===== src/Tests/Capture.antt =====
-- A packet capture and a flow capture on concrete inputs.
use netobserv_cli.Common.{
  ℕ, ◌+◌, ◌≡◌, ◌≤◌, refl, Bool, true, false, List, [], ◌∷◌, Option, none, some, arith, length,
  if◌then◌else◌, ◌<◌, not, all,
}
use netobserv_cli.Text.{Bytes, codes, eq_bytes, split}
use netobserv_cli.GenericMap.{GenericMap, str, float64, whole, get, as_string, put}
use netobserv_cli.Filters.{plaintext_capture_enabled, option_enabled, option_flag, option_part}
use netobserv_cli.Plaintext.Display.{enrich_plaintext_for_export}
use netobserv_cli.Plaintext.Payload.{plaintext_payload_bytes}
use netobserv_cli.Endpoints.{plaintext_has_tuple, valid_ip_string, map_port_from_generic}
use netobserv_cli.Session.{
  Session, Input, Outcome, waiting, completed, crashed, stop, flow, collect, open_session,
  close_session,
}
use netobserv_cli.Session.Counts.{
  numbered, count_lines, sent_lines, count_frames, sent_frames, shown_packets,
}
use netobserv_cli.Session.Delivery.Records.{records_logged_once}
use netobserv_cli.Session.Delivery.Packets.{packets_written_once}
use netobserv_cli.Session.Limits.{collect-Within, Within, AllAtMost, input_size}
use netobserv_cli.Session.KeyLog.{
  WatchRound, succeeds, is_running, secrets_of, watch_tls_keylog, embed_tls_keylog, new_key_log,
  key_log_embedded_once,
}
use netobserv_cli.FlowCapture
use netobserv_cli.FlowCapture.{Lifecycle, Collector, collect_flows, returned}
use netobserv_cli.FlowCapture.Limits.{
  limit_calls, exits, limit_reached_once, display_capture_returns, all_bytes,
}
use netobserv_cli.FlowCapture.Rows.{
  row_of, insert_all_columns, insert_columns, insert_arguments, is_int,
}
use netobserv_cli.Tests.{clock, sample_extern, written_map, wire_map}

-- A message is "p" for a record, "w" for a packet, and does not parse otherwise.
abbrev sample_json : Bytes → Option GenericMap
sample_json s =
    if eq_bytes s (codes "p")
    then some ((codes "RecordType", str (codes "plaintext")) ∷ written_map)
    else if eq_bytes s (codes "w")
    then some ((codes "Data", str (codes "abc")) ∷ wire_map)
    else none

abbrev tls_options : Bytes
tls_options = codes "enable_openssl"

abbrev opened : Session
opened = open_session sample_extern tls_options true

abbrev sample_inputs : List (ℕ × (ℕ → ℕ) × Input)
sample_inputs =
    (10, clock 10, flow (codes "w"))
    ∷ (11, clock 11, flow (codes "p"))
    ∷ (12, clock 12, flow (codes "x"))
    ∷ (13, clock 13, Input.tick)
    ∷ (14, clock 14, stop)
    ∷ []

abbrev session_of : Outcome → Session
session_of (waiting s) = s
session_of (completed s) = s
session_of crashed = opened

abbrev last_session : Session
last_session = session_of (collect sample_extern sample_json 100 sample_inputs opened)

abbrev closed_session : Session
closed_session = close_session sample_extern (clock 20) last_session

tls_enabled : plaintext_capture_enabled tls_options ≡ true
unfolding plaintext_capture_enabled option_enabled split option_flag eq_bytes option_part
tls_enabled = refl

sample_completed :
    collect sample_extern sample_json 100 sample_inputs opened ≡ completed last_session
unfolding collect eq_bytes get open_session option_enabled split option_flag option_part
    enrich_plaintext_for_export plaintext_payload_bytes as_string put plaintext_has_tuple
    valid_ip_string map_port_from_generic
sample_completed = refl

records_logged_once_example :
    count_lines 1 closed_session.lines + sent_lines 1 closed_session.wire_buf
    ≡ numbered 1 closed_session.next_id
records_logged_once_example =
    records_logged_once sample_extern sample_json 100 tls_options sample_inputs last_session
      (clock 20) 1 tls_enabled (omega arith) sample_completed

abbrev any_frame : GenericMap → Bytes → Bool
any_frame m frame = true

packets_written_once_example :
    count_frames any_frame closed_session.frames + sent_frames any_frame closed_session.wire_buf
    ≡ shown_packets any_frame sample_extern closed_session.shown
packets_written_once_example =
    packets_written_once sample_extern sample_json 100 tls_options true sample_inputs last_session
      (clock 20) any_frame sample_completed

-- A packet, and then a record that exceeds a limit of one byte.
abbrev two_inputs : List (ℕ × (ℕ → ℕ) × Input)
two_inputs = (10, clock 10, flow (codes "w")) ∷ (11, clock 11, flow (codes "p")) ∷ []

two_small : AllAtMost sample_extern sample_json 1 1 two_inputs
unfolding AllAtMost input_size eq_bytes
two_small = (omega arith, (omega arith, tt))

opened_empty : opened.total_bytes ≤ 1
unfolding open_session
opened_empty = omega arith

collect-Within_example :
    Within sample_extern sample_json 1 1 opened.total_bytes two_inputs
      (collect sample_extern sample_json 1 two_inputs opened)
collect-Within_example =
    collect-Within sample_extern sample_json 1 1 two_inputs opened opened_empty two_small

abbrev lifecycle_in : Bool → Lifecycle
lifecycle_in background = record {
  capture_ended = false;
  is_background = background;
  shows_display = not background;
  app_stops = 0;
  daemonset_deletions = 0;
}

abbrev collector_in : Bool → Collector
collector_in background = record {
  lifecycle = lifecycle_in background;
  total_bytes = 0;
  started = [];
  stored = [];
  written = [];
}

abbrev flow_arrival : FlowCapture.Arrival
flow_arrival = record {
  value = codes "{}";
  stop_received = false;
  is_stored = true;
  written_bytes = some 4;
  elapsed = 7;
}

limit_reached_once_example :
    (exits (limit_calls 3 (lifecycle_in true)).0 ≡ 0)
    × ((limit_calls 3 (lifecycle_in true)).1.capture_ended ≡ true)
    × ((limit_calls 3 (lifecycle_in true)).1.daemonset_deletions ≡ 0 + 1)
limit_reached_once_example = limit_reached_once 2 (lifecycle_in true) refl

arrivals_exceed : 5 < 0 + all_bytes 5 100 (flow_arrival ∷ flow_arrival ∷ [])
unfolding all_bytes
arrivals_exceed = omega arith

display_capture_returns_example :
    (r : Collector) × (collect_flows 5 100 (flow_arrival ∷ flow_arrival ∷ []) (collector_in false)
      ≡ returned r)
display_capture_returns_example =
    display_capture_returns 5 100 (flow_arrival ∷ flow_arrival ∷ []) (collector_in false) refl refl
      (omega arith) arrivals_exceed

-- A flow without drops and without DNS.
abbrev plain_flow : GenericMap
plain_flow = (codes "Bytes", float64 (whole 120)) ∷ []

plain_flow_no_int :
    (is_int (get (codes "PktDropPackets") plain_flow) ≡ false)
    × (is_int (get (codes "PktDropLatestDropCause") plain_flow) ≡ false)
    × (is_int (get (codes "DnsId") plain_flow) ≡ false)
unfolding is_int get eq_bytes
plain_flow_no_int = (refl, refl, refl)

insert_all_columns_example :
    (row_of (insert_columns plain_flow) (insert_arguments plain_flow)
      ≡ (codes "DnsErrno", get (codes "DNSErrno") plain_flow)
        ∷ (codes "Dscp", get (codes "Dscp") plain_flow)
        ∷ (codes "DstAddr", get (codes "DstAddr") plain_flow)
        ∷ (codes "DstPort", get (codes "DstPort") plain_flow)
        ∷ (codes "Interface", get (codes "Interface") plain_flow)
        ∷ (codes "Proto", get (codes "Proto") plain_flow)
        ∷ (codes "SrcAddr", get (codes "SrcAddr") plain_flow)
        ∷ (codes "SrcPort", get (codes "SrcPort") plain_flow)
        ∷ (codes "Bytes", get (codes "Bytes") plain_flow)
        ∷ (codes "Packets", get (codes "Packets") plain_flow)
        ∷ (codes "PktDropLatestDropCause", get (codes "PktDropLatestDropCause") plain_flow)
        ∷ (codes "PktDropBytes", get (codes "PktDropBytes") plain_flow)
        ∷ (codes "PktDropPackets", get (codes "PktDropPackets") plain_flow)
        ∷ (codes "DnsId", get (codes "DnsId") plain_flow)
        ∷ (codes "DnsName", get (codes "DnsName") plain_flow)
        ∷ (codes "DnsFlagsResponseCode", get (codes "DnsFlagsResponseCode") plain_flow)
        ∷ (codes "DnsLatencyMs", get (codes "DnsLatencyMs") plain_flow)
        ∷ (codes "TimeFlowRttNs", get (codes "TimeFlowRttNs") plain_flow)
        ∷ [])
    × (length (insert_arguments plain_flow) ≡ 18)
insert_all_columns_example =
    insert_all_columns plain_flow plain_flow_no_int.0 plain_flow_no_int.1 plain_flow_no_int.2

-- The key log grows by a line; the first write of it fails.
abbrev grown_log : Bool → WatchRound
grown_log accepted = record {
  stop_received = false;
  opened = true;
  sought = true;
  readable = true;
  content = codes "k1\nk2\n";
  accepted = accepted;
}

sample_succeeds : succeeds (grown_log true) ≡ true
unfolding succeeds
sample_succeeds = refl

sample_running : all is_running (grown_log false ∷ grown_log true ∷ []) ≡ true
unfolding all is_running
sample_running = refl

key_log_embedded_once_example :
    secrets_of
      (watch_tls_keylog
        (grown_log false ∷ grown_log true ∷ [])
        (embed_tls_keylog true true (codes "k1\n") new_key_log)).blocks
    ≡ codes "k1\nk2\n"
key_log_embedded_once_example =
    key_log_embedded_once true true (codes "k1\n") (grown_log false ∷ []) (grown_log true)
      ((codes "k2\n", refl), (([], refl), tt)) sample_running sample_succeeds
