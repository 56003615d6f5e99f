-- ===== src/Display/Flows.antt =====
-- The flows kept in memory: `AppendFlow`, `appendToTimeSortedBuffer`, `clearPacketCaptureBuffers` and
-- `packetCaptureFlowSnapshot` of cmd/flow_display.go. `AppendFlow` holds the mutex throughout.
pub mod Newest
pub mod Buffers
pub mod Indexed
pub mod Invariant
pub mod History
use netobserv_cli.Common.{
  ℕ, suc, Bool, true, false, ◌&&◌, ◌||◌, List, [], ◌∷◌, ◌++◌, Option, none, some, ltb, is_some, all,
  length, if◌then◌else◌, ◌>>=◌,
}
use netobserv_cli.Common.Int.{pos}
use netobserv_cli.Text.{codes}
use netobserv_cli.GenericMap.{GenericMap, int, lookup, put}
use netobserv_cli.Session.{is_plaintext_record}
use netobserv_cli.Display.Order.{Capture, flow_key, less_flows}
use netobserv_cli.Display.Sorting.{Less, keep_last}

abbrev pub default_keep_count : ℕ
default_keep_count = 100

abbrev pub default_wire_packet_keep_count : ℕ
default_wire_packet_keep_count = 200

abbrev pub default_plaintext_keep_count : ℕ
default_plaintext_keep_count = 300

-- The globals that `AppendFlow` uses; `tls` is `plaintextCaptureEnabled()`.
pub record Memory : Type 0 where
  pub capture : Capture
  pub tls : Bool
  pub paused : Bool
  pub flow_index : ℕ
  pub last_flows : List GenericMap
  pub last_wire_packets : List GenericMap
  pub last_plaintext_flows : List GenericMap

abbrev pub empty_memory : Capture → Bool → Memory
empty_memory capture tls = record {
  capture = capture;
  tls = tls;
  paused = false;
  flow_index = 0;
  last_flows = [];
  last_wire_packets = [];
  last_plaintext_flows = [];
}

-- `isWirePacketRecord`.
unfoldable pub is_wire_packet_record : GenericMap → Bool
is_wire_packet_record m = is_some (lookup (codes "Data") m)

-- Whether every key that a sort compares is there; a slice of one element is not compared.
unfoldable pub comparable : Capture → List GenericMap → Bool
unfolding all
comparable c xs = ltb (length xs) 2 || all (λ m. is_some (flow_key c m)) xs

unfoldable pub is_packets : Capture → Bool
is_packets Capture.packets = true
is_packets _ = false

-- The map with its index.
unfoldable pub indexed : Memory → GenericMap → GenericMap
indexed s m = put (codes "Index") (int (pos s.flow_index)) m

module _ (sort : Less → List GenericMap → List GenericMap) where
  -- `none` is a type assertion that fails.
  unfoldable pub sort_flows : Capture → List GenericMap → Option (List GenericMap)
  unfolding comparable
  sort_flows c xs = if comparable c xs then some (sort (less_flows c) xs) else none

  unfoldable pub append_to_time_sorted_buffer :
      Capture → List GenericMap → GenericMap → ℕ → Option (List GenericMap)
  unfolding sort_flows
  append_to_time_sorted_buffer c buf m max_len = elim (sort_flows c (buf ++ m ∷ [])) [
    | none ↦ none
    | some xs ↦ some (keep_last max_len xs)
  ]

  unfoldable pub set_flows : Memory → Option (List GenericMap) → Option Memory
  set_flows s none = none
  set_flows s (some xs) = some (record s { last_flows = xs })

  unfoldable pub set_wire_packets : Memory → Option (List GenericMap) → Option Memory
  set_wire_packets s none = none
  set_wire_packets s (some xs) = some (record s { last_wire_packets = xs })

  unfoldable pub set_plaintext_flows : Memory → Option (List GenericMap) → Option Memory
  set_plaintext_flows s none = none
  set_plaintext_flows s (some xs) = some (record s { last_plaintext_flows = xs })

  -- By the kind of the record, where plaintext and packets are kept apart.
  unfoldable pub append_by_kind : Memory → GenericMap → Option Memory
  unfolding append_to_time_sorted_buffer set_flows set_wire_packets set_plaintext_flows
      is_plaintext_record is_wire_packet_record
  append_by_kind s m =
      if is_plaintext_record m
      then set_plaintext_flows s (
          append_to_time_sorted_buffer s.capture s.last_plaintext_flows m
            default_plaintext_keep_count)
      else if is_wire_packet_record m
      then set_wire_packets s (
          append_to_time_sorted_buffer s.capture s.last_wire_packets m
            default_wire_packet_keep_count)
      else set_flows s (append_to_time_sorted_buffer s.capture s.last_flows m default_keep_count)

  unfoldable pub append_indexed : Memory → GenericMap → Option Memory
  unfolding append_by_kind is_packets append_to_time_sorted_buffer set_flows
  append_indexed s m =
      if is_packets s.capture && s.tls
      then append_by_kind s m
      else set_flows s (append_to_time_sorted_buffer s.capture s.last_flows m default_keep_count)

  -- `AppendFlow`.
  unfoldable pub append_flow : GenericMap → Memory → Option Memory
  unfolding append_indexed indexed
  append_flow m s =
      if s.paused
      then some s
      else append_indexed (record s { flow_index = suc s.flow_index }) (indexed s m)

  -- `packetCaptureFlowSnapshot`.
  unfoldable pub packet_capture_flow_snapshot : Memory → Option (List GenericMap)
  unfolding sort_flows is_packets
  packet_capture_flow_snapshot s =
      if is_packets s.capture && s.tls
      then sort_flows s.capture (s.last_wire_packets ++ s.last_plaintext_flows)
      else some s.last_flows

-- `clearPacketCaptureBuffers`.
unfoldable pub clear_packet_capture_buffers : Memory → Memory
clear_packet_capture_buffers s = record s { last_wire_packets = []; last_plaintext_flows = [] }

-- `pause`, without the button.
unfoldable pub pause : Bool → Memory → Memory
pause b s = record s { paused = b }
