-- ===== src/Session.antt =====
-- A packet capture session: `startPacketCollector`, `handlePlaintextRecord` and `handleWirePacket` of
-- cmd/packet_capture.go, and the numbers that cmd/packet_capture_plaintext.go gives to the records.
pub mod Runs
pub mod Counts
pub mod Delivery
pub mod Limits
pub mod KeyLog
use netobserv_cli.Common.{
  ℕ, ◌+◌, ◌%◌, ◌^◌, Bool, true, false, List, [], ◌∷◌, ◌++◌, Option, none, some, ltb, length,
  if◌then◌else◌,
}
use netobserv_cli.Text.{Bytes, codes}
use netobserv_cli.GenericMap.{GenericMap, Value, str, bool, uint64, get, lookup, put, is_string}
use netobserv_cli.Extern.{Extern}
use netobserv_cli.Filters.{parse_capture_filters, plaintext_capture_enabled}
use netobserv_cli.Plaintext.Display.{enrich_plaintext_for_export}
use netobserv_cli.Plaintext.Unmatched.{plaintext_tuple_verified, prepare_unmatched_plaintext}
use netobserv_cli.Score.{plaintext_correlation_window}
use netobserv_cli.WireBuffer.Defs.{Buffer}
use netobserv_cli.WireBuffer.Operations.{
  new_wire_packet_buffer, enqueue, unless_error, handle_plaintext, flush_expired, flush_all,
}

-- The collector's variables and its output: the maps that it hands to `writePlaintextJSONL` by itself,
-- each with its record's number, the packets that it writes without the buffer, and the maps that
-- it hands to `AppendFlow`, each in a goroutine of its own. `next_id` is the global `plaintextPacketID`.
pub record Session : Type 0 where
  pub wire_buf : Option Buffer
  pub has_log : Bool
  pub next_id : ℕ
  pub lines : List (ℕ × GenericMap)
  pub frames : List (GenericMap × Bytes)
  pub shown : List GenericMap
  pub total_bytes : ℕ

-- What happens next: a signal, the end of the time or of the display; a tick of the buffer's own
-- loop; a flow, with its JSON text; or a panic in one of the goroutines that run `AppendFlow` on the
-- maps shown so far, which ends the program (`Display.Flows` says when one fails).
pub data Input : Type 0 where
  stop : Input
  tick : Input
  flow : Bytes → Input
  append_panics : Input

-- The collector waits for more, has completed, or was ended by a panic.
pub data Outcome : Type 0 where
  waiting : Session → Outcome
  completed : Session → Outcome
  crashed : Outcome

unfoldable pub is_plaintext_record : GenericMap → Bool
unfolding is_string
is_plaintext_record m = is_string (codes "plaintext") (get (codes "RecordType") m)

-- `nextPlaintextPacketID`, an atomic uint64.
unfoldable pub next_plaintext_packet_id : Session → ℕ
next_plaintext_packet_id s = (s.next_id + 1) % 2 ^ 64

-- `assignPlaintextPacketID`.
unfoldable pub assign_plaintext_packet_id : ℕ → GenericMap → GenericMap
assign_plaintext_packet_id id m = put (codes "PacketID") (uint64 id) m

-- A tick of the loop of the buffer, if there is one.
unfoldable pub map_buffer : (Buffer → Buffer) → Option Buffer → Option Buffer
map_buffer f none = none
map_buffer f (some b) = some (f b)

-- `writePlaintextJSONL`, with what `json.Marshal` gives and whether the writer takes the line: an error
-- of either is logged, and the line is lost.
unfoldable pub write_plaintext_jsonl :
    (GenericMap → Option Bytes) → Bool → GenericMap → Bytes → Bytes
write_plaintext_jsonl marshal accepted m file = elim (marshal m) [
  | none ↦ file
  | some line ↦ if accepted then file ++ line ++ codes "\n" else file
]

-- The call of `writePlaintextJSONL`, where there is a log.
unfoldable pub hand_to_log : ℕ → GenericMap → Session → Session
hand_to_log id m s = if s.has_log then record s { lines = s.lines ++ (id, m) ∷ [] } else s

module _ (ext : Extern) where
  -- A record that the buffer does not get.
  unfoldable pub write_unmatched : ℕ → GenericMap → Session → Session
  unfolding hand_to_log
  write_unmatched id m s =
      hand_to_log id (put (codes "PcapAnnotated") (bool false) (prepare_unmatched_plaintext ext m))
        s

  -- Where the record goes, by the test of its tuple and the buffer.
  unfoldable pub route_plaintext :
      ℕ → (ℕ → ℕ) → ℕ → GenericMap → Bool → Option Buffer → Session → Session
  unfolding write_unmatched
  route_plaintext now since id m true (some b) s = record s {
    wire_buf = some (handle_plaintext ext now since m id b);
  }
  route_plaintext now since id m true none s = write_unmatched id m s
  route_plaintext now since id m false buffer s = write_unmatched id m s

  -- The record as it is shown and sent on.
  unfoldable pub numbered_record : ℕ → GenericMap → GenericMap
  unfolding assign_plaintext_packet_id
  numbered_record id m = enrich_plaintext_for_export ext (assign_plaintext_packet_id id m)

  -- `handlePlaintextRecord`; its goroutine of `AppendFlow` may panic later, as an input.
  unfoldable pub handle_plaintext_record : ℕ → (ℕ → ℕ) → GenericMap → Session → Session
  unfolding route_plaintext next_plaintext_packet_id numbered_record plaintext_tuple_verified
  handle_plaintext_record now since m s =
      let id = next_plaintext_packet_id s in
      let m' = numbered_record id m in
      route_plaintext now since id m' (plaintext_tuple_verified ext m') s.wire_buf
        (record s { next_id = id; shown = s.shown ++ m' ∷ [] })

  -- `writePacketData`: what does not decode is logged and left out.
  unfoldable pub write_packet_data : GenericMap → Option Bytes → Session → Session
  write_packet_data m none s = s
  write_packet_data m (some frame) s = record s { frames = s.frames ++ (m, frame) ∷ [] }

  -- The packet goes to the buffer, or to the file where there is no buffer.
  unfoldable pub route_packet : ℕ → (ℕ → ℕ) → GenericMap → Bytes → Option Buffer → Session → Session
  unfolding write_packet_data unless_error
  route_packet now since m data_b64 none s = write_packet_data m (ext.decode_base64 data_b64) s
  route_packet now since m data_b64 (some b) s = record s {
    wire_buf = some (unless_error (enqueue ext now since m data_b64 b) b);
  }

  -- By the value of `Data`: without one the map is only shown, and another type than string fails.
  unfoldable pub handle_data : ℕ → (ℕ → ℕ) → GenericMap → Option Value → Session → Option Session
  unfolding route_packet
  handle_data now since m none s = some s
  handle_data now since m (some (str data_b64)) s =
      some (route_packet now since m data_b64 s.wire_buf s)
  handle_data now since m (some _) s = none

  -- `handleWirePacket`; `none` is the failed assertion on `Data`. Its goroutine of `AppendFlow` may panic
  -- later, as an input, also on a nil map.
  unfoldable pub handle_wire_packet : ℕ → (ℕ → ℕ) → GenericMap → Session → Option Session
  unfolding handle_data
  handle_wire_packet now since m s =
      handle_data now since m (lookup (codes "Data") m) (record s { shown = s.shown ++ m ∷ [] })

  unfoldable pub dispatch : ℕ → (ℕ → ℕ) → GenericMap → Session → Option Session
  unfolding handle_plaintext_record handle_wire_packet is_plaintext_record
  dispatch now since m s =
      if is_plaintext_record m
      then some (handle_plaintext_record now since m s)
      else handle_wire_packet now since m s

  -- `wireBuf.Close()`, one of the deferred calls.
  unfoldable pub close_session : (ℕ → ℕ) → Session → Session
  unfolding map_buffer
  close_session since s = record s { wire_buf = map_buffer (flush_all ext since) s.wire_buf }

  -- The session when the loop starts: whether plaintext is captured, and whether the log could be
  -- created then.
  unfoldable pub open_with : Bytes → Bool → Bool → Session
  unfolding new_wire_packet_buffer parse_capture_filters
  open_with options enabled log_created = record {
    wire_buf =
        if enabled
        then some (
            new_wire_packet_buffer plaintext_correlation_window true true
              (parse_capture_filters ext options))
        else none;
    has_log = if enabled then log_created else false;
    next_id = 0;
    lines = [];
    frames = [];
    shown = [];
    total_bytes = 0;
  }

  unfoldable pub open_session : Bytes → Bool → Session
  unfolding plaintext_capture_enabled open_with
  open_session options log_created =
      open_with options (plaintext_capture_enabled options) log_created

  -- `json.Unmarshal` into a `GenericMap`, and the flag `--max-bytes`.
  module _ (json_map : Bytes → Option GenericMap) (max_bytes : ℕ) where
    -- The bytes of a message are counted once it is handled.
    unfoldable pub count_bytes : ℕ → Option Session → Outcome
    count_bytes size none = crashed
    count_bytes size (some s) =
        let s' = record s { total_bytes = s.total_bytes + size } in
        if ltb max_bytes (s.total_bytes + size) then completed s' else waiting s'

    unfoldable pub on_message : ℕ → (ℕ → ℕ) → ℕ → Option GenericMap → Session → Outcome
    unfolding count_bytes dispatch
    on_message now since size none s = waiting s
    on_message now since size (some m) s = count_bytes size (dispatch now since m s)

    -- One round of the loop.
    unfoldable pub session_step : ℕ → (ℕ → ℕ) → Input → Session → Outcome
    unfolding on_message map_buffer
    session_step now since stop s = completed s
    session_step now since append_panics s = crashed
    session_step now since tick s =
        waiting (record s { wire_buf = map_buffer (flush_expired ext now since) s.wire_buf })
    session_step now since (flow value) s = on_message now since (length value) (json_map value) s

    -- The loop over what arrives, each with its readings of the clock.
    unfoldable pub collect : List (ℕ × (ℕ → ℕ) × Input) → Session → Outcome
    unfolding session_step
    collect [] s = waiting s
    collect ((now, since, i) ∷ inputs) s = elim (session_step now since i s) [
      | waiting s' ↦ collect inputs s'
      | completed s' ↦ completed s'
      | crashed ↦ crashed
    ]
