-- ===== src/WireBuffer/Operations.antt =====
-- The operations of `wirePacketBuffer`. `now` is the reading of the clock that an operation hands
-- down, `since` what the clock reads in each call of `time.Since`, of which an attempt makes at most
-- two; each operation holds the mutex throughout.
use netobserv_cli.Common.{
  ℕ, ◌+◌, ◌*◌, Bool, true, false, List, [], ◌∷◌, ◌++◌, Option, none, some, ltb, leb, if◌then◌else◌,
  length,
}
use netobserv_cli.Text.{Bytes, codes, is_empty}
use netobserv_cli.GenericMap.{GenericMap, bool, get, put, is_string}
use netobserv_cli.Extern.{Extern}
use netobserv_cli.Filters.{CaptureFilters}
use netobserv_cli.Plaintext.Annotation.{plaintext_timestamp}
use netobserv_cli.Plaintext.Unmatched.{prepare_unmatched_plaintext}
use netobserv_cli.Score.{BufferedWirePacket, PendingPlaintext, plaintext_correlation_window}
use netobserv_cli.WireBuffer.Defs.{Buffer, wrote, exported}
use netobserv_cli.WireBuffer.Annotate.{Attempt, try_annotate}

abbrev pub max_buffered_wire_packets : ℕ
max_buffered_wire_packets = 20000

-- `newWirePacketBuffer`; a window that is not positive is 0 here.
unfoldable pub new_wire_packet_buffer : ℕ → Bool → Bool → CaptureFilters → Buffer
new_wire_packet_buffer window has_writer has_finalizer filters = record {
  window = if ltb 0 window then window else plaintext_correlation_window;
  has_writer = has_writer;
  has_finalizer = has_finalizer;
  filters = filters;
  packets = [];
  pending = [];
  trace = [];
}

-- `writeBufferedWirePacket`.
unfoldable pub write_buffered_wire_packet : Buffer → BufferedWirePacket → Buffer
write_buffered_wire_packet b pkt =
    if b.has_writer then record b { trace = b.trace ++ wrote pkt ∷ [] } else b

unfoldable pub send : Buffer → ℕ → GenericMap → Buffer
send b id m = if b.has_finalizer then record b { trace = b.trace ++ exported id m ∷ [] } else b

unfoldable pub finalize_plaintext : Buffer → PendingPlaintext → Buffer
finalize_plaintext b pt = send b pt.id pt.contents

-- A packet's or a record's time in the buffer is over.
unfoldable pub expired : ℕ → ℕ → ℕ → Bool
expired window now received_at = leb (received_at + window) now

-- The loop over the packets: those that `p` accepts are written, the others remain.
unfoldable pub write_packets :
    (BufferedWirePacket → Bool) → List BufferedWirePacket → Buffer → Buffer
write_packets p [] b = record b { packets = [] }
write_packets p (pkt ∷ packets) b =
    let later = write_packets p packets (if p pkt then write_buffered_wire_packet b pkt else b) in
    record later { packets = if p pkt then later.packets else pkt ∷ later.packets }

-- The buffer after an attempt: a record that annotated a packet is sent out.
unfoldable pub after_attempt : Buffer → Attempt → Buffer
after_attempt b a =
    let b' = record b { packets = a.packets } in if a.done then finalize_plaintext b' a.pt else b'

-- The records that wait: one that annotated a packet no longer does.
unfoldable pub still_pending : Attempt → List PendingPlaintext
still_pending a = if a.done then [] else a.pt ∷ []

-- The packet that was received first is written, and the others remain.
unfoldable pub evict_oldest : Buffer → List BufferedWirePacket → Buffer
evict_oldest b [] = b
evict_oldest b (oldest ∷ rest) = record (write_buffered_wire_packet b oldest) { packets = rest }

-- The packet goes to the end; past the limit, the oldest is written out at once.
unfoldable pub push_packet : BufferedWirePacket → Buffer → Buffer
push_packet pkt b =
    if ltb max_buffered_wire_packets (length (b.packets ++ pkt ∷ []))
    then evict_oldest b (b.packets ++ pkt ∷ [])
    else record b { packets = b.packets ++ pkt ∷ [] }

unfoldable pub new_packet : ℕ → GenericMap → Bytes → BufferedWirePacket
new_packet now m frame = record {
  received_at = now;
  packet_time = plaintext_timestamp m;
  generic_map = m;
  frame = frame;
  annotations = [];
  packet_id = none;
  annotated = false;
}

unfoldable pub new_plaintext : ℕ → GenericMap → ℕ → PendingPlaintext
new_plaintext now m id = record {
  received_at = now;
  event_time = plaintext_timestamp m;
  contents = m;
  original = m;
  id = id;
  connection_ambiguous = false;
}

-- The readings that are left after a flush, which attempts a match for each record that waits.
abbrev pub after_flush : Buffer → (ℕ → ℕ) → ℕ → ℕ
after_flush b since i = since (2 * length b.pending + i)

module _ (ext : Extern) where
  -- What `finalizeUnmatchedLocked` sends out for a record.
  unfoldable pub unmatched_record : PendingPlaintext → GenericMap
  unmatched_record pt = put (codes "PcapAnnotated") (bool false) (
      if is_string (codes "kernel") (get (codes "TupleSource") pt.original)
      then prepare_unmatched_plaintext ext pt.original
      else pt.original)

  unfoldable pub finalize_unmatched : Buffer → PendingPlaintext → Buffer
  finalize_unmatched b pt = send b pt.id (unmatched_record pt)

  -- The loop over the pending records: those that `p` accepts are sent out, the others remain.
  unfoldable pub finalize_where :
      (PendingPlaintext → Bool) → List PendingPlaintext → Buffer → Buffer
  finalize_where p [] b = record b { pending = [] }
  finalize_where p (pt ∷ pending) b =
      let later = finalize_where p pending (if p pt then finalize_unmatched b pt else b) in
      record later { pending = if p pt then later.pending else pt ∷ later.pending }

  -- The loop of `matchPendingAgainstWireLocked` over the records that are left.
  unfoldable pub match_loop : Bool → (ℕ → ℕ) → List PendingPlaintext → Buffer → Buffer
  match_loop final since [] b = record b { pending = [] }
  match_loop final since (pt ∷ pending) b =
      let a = try_annotate ext b.window b.filters final since b.packets pt in
      let later = match_loop final (λ i. since (2 + i)) pending (after_attempt b a) in
      record later { pending = still_pending a ++ later.pending }

  unfoldable pub match_pending_against_wire : Bool → (ℕ → ℕ) → Buffer → Buffer
  match_pending_against_wire final since b = match_loop final since b.pending b

  unfoldable pub flush_packets : ℕ → (ℕ → ℕ) → Buffer → Buffer
  flush_packets now since b =
      let b' = match_pending_against_wire false since b in
      if is_empty b.packets
      then b
      else write_packets (λ pkt. expired b.window now pkt.received_at) b'.packets b'

  unfoldable pub flush_pending : ℕ → Buffer → Buffer
  flush_pending now b =
      if is_empty b.pending
      then b
      else finalize_where (λ pt. expired b.window now pt.received_at) b.pending b

  unfoldable pub flush_expired : ℕ → (ℕ → ℕ) → Buffer → Buffer
  flush_expired now since b = flush_pending now (flush_packets now since b)

  unfoldable pub enqueue_frame : ℕ → (ℕ → ℕ) → GenericMap → Option Bytes → Buffer → Option Buffer
  enqueue_frame now since m none b = none
  enqueue_frame now since m (some frame) b = some (
      match_pending_against_wire false (after_flush b since)
        (push_packet (new_packet now m frame) (flush_expired now since b)))

  -- `Enqueue`; `none` is the error of the base64 decoder.
  unfoldable pub enqueue : ℕ → (ℕ → ℕ) → GenericMap → Bytes → Buffer → Option Buffer
  enqueue now since m data_b64 b = enqueue_frame now since m (ext.decode_base64 data_b64) b

  -- The new record is matched at once, or waits.
  unfoldable pub match_or_wait : (ℕ → ℕ) → PendingPlaintext → Buffer → Buffer
  match_or_wait since pt b =
      let a = try_annotate ext b.window b.filters false since b.packets pt in
      record (after_attempt b a) { pending = b.pending ++ still_pending a }

  -- `HandlePlaintext`.
  unfoldable pub handle_plaintext : ℕ → (ℕ → ℕ) → GenericMap → ℕ → Buffer → Buffer
  handle_plaintext now since m id b =
      match_or_wait (after_flush b since) (new_plaintext now m id) (flush_expired now since b)

  -- `flushAll`, which `Close` calls.
  unfoldable pub flush_all : (ℕ → ℕ) → Buffer → Buffer
  flush_all since b =
      let matched = match_pending_against_wire true since b in
      let written = write_packets (λ _. true) matched.packets matched in
      finalize_where (λ _. true) written.pending written

-- What is asked of the buffer: a packet, a plaintext record, a tick of `flushLoop`.
pub data Call : Type 0 where
  packet : GenericMap → Bytes → Call
  plaintext : GenericMap → ℕ → Call
  tick : Call

-- An error leaves the buffer as it was.
unfoldable pub unless_error : Option Buffer → Buffer → Buffer
unless_error none b = b
unless_error (some b') b = b'

-- A call at a time.
unfoldable pub step : Extern → ℕ → (ℕ → ℕ) → Call → Buffer → Buffer
step ext now since (packet m data_b64) b = unless_error (enqueue ext now since m data_b64 b) b
step ext now since (plaintext m id) b = handle_plaintext ext now since m id b
step ext now since tick b = flush_expired ext now since b

-- The calls in the order in which they take the mutex, each with its readings of the clock.
unfoldable pub run : Extern → List (ℕ × (ℕ → ℕ) × Call) → Buffer → Buffer
run ext [] b = b
run ext ((now, since, c) ∷ calls) b = run ext calls (step ext now since c b)
