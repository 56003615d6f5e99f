-- ===== src/WireBuffer/History.antt =====
-- Whole histories of the buffer: its calls in the order in which they take the mutex, and its close.
use netobserv_cli.Common.{
  ℕ, ◌+◌, ◌≡◌, refl, ap, Bool, true, false, List, [], ◌∷◌, Option, none, some, arith, if◌then◌else◌,
  ◌==◌,
}
use netobserv_cli.Text.{Bytes}
use netobserv_cli.GenericMap.{GenericMap}
use netobserv_cli.Extern.{Extern}
use netobserv_cli.Filters.{CaptureFilters}
use netobserv_cli.Score.{BufferedWirePacket, PendingPlaintext}
use netobserv_cli.WireBuffer.Defs.{Buffer}
use netobserv_cli.WireBuffer.Identity.{Arrival, arrival}
use netobserv_cli.WireBuffer.Conservation.{
  IsWired, Balance, Balance-trans, Balance-refl, flush_expired-Balance, push_packet-Balance,
  match_or_wait-Balance, match_pending-Balance, write_packets-Balance, finalize_where-Balance,
  sent_packets, sent_records, held_packets, held_records,
}
use netobserv_cli.WireBuffer.Operations.{
  after_flush, new_wire_packet_buffer, write_packets, finalize_where, match_pending_against_wire,
  flush_expired, push_packet, new_packet, enqueue, enqueue_frame, unless_error,
  new_wire_packet_buffer, new_plaintext, handle_plaintext, flush_all, step, run, Call, packet,
  plaintext, tick, finalize_unmatched, write_buffered_wire_packet, send,
}

module _ (ext : Extern) (q : Arrival → Bool) (k : ℕ) where
  unfoldable pub arrived_frame : ℕ → GenericMap → Option Bytes → ℕ
  arrived_frame now m none = 0
  arrived_frame now m (some frame) = if q (arrival (new_packet now m frame)) then 1 else 0

  -- How many packets that pass a call brings in: none if it does not decode.
  unfoldable pub arrived_in : ℕ → Call → ℕ
  arrived_in now (packet m data_b64) = arrived_frame now m (ext.decode_base64 data_b64)
  arrived_in now (plaintext m id) = 0
  arrived_in now tick = 0

  unfoldable pub received_in : Call → ℕ
  received_in (packet m data_b64) = 0
  received_in (plaintext m id) = if id == k then 1 else 0
  received_in tick = 0

  unfoldable pub arrived : List (ℕ × (ℕ → ℕ) × Call) → ℕ
  arrived [] = 0
  arrived ((now, since, c) ∷ calls) = arrived_in now c + arrived calls

  unfoldable pub received : List (ℕ × (ℕ → ℕ) × Call) → ℕ
  received [] = 0
  received ((now, since, c) ∷ calls) = received_in c + received calls

  Balance-cast :
      {p r p' r' : ℕ} {b c : Buffer} → p ≡ p' → r ≡ r' → Balance q k p r b c → Balance q k p' r' b c
  Balance-cast same_p same_r x = record {
    wired = x.wired;
    packets_balance = omega (arith, x.packets_balance, same_p);
    records_balance = omega (arith, x.records_balance, same_r);
  }

  -- The buffer after a packet whose frame is known.
  enqueued-Balance :
      (now : ℕ) (since : ℕ → ℕ) (m : GenericMap) (frame : Bytes) (b : Buffer)
      → IsWired b
      → Balance q k (if q (arrival (new_packet now m frame)) then 1 else 0) 0 b (
          match_pending_against_wire ext false
            (after_flush b since)
            (push_packet (new_packet now m frame) (flush_expired ext now since b)))
  enqueued-Balance now since m frame b w =
      let pkt = new_packet now m frame in
      let x = flush_expired-Balance q k ext now since b w in
      let y = push_packet-Balance q k ext (flush_expired ext now since b) pkt x.wired in
      let z = match_pending-Balance q k ext false _ _ y.wired in
      Balance-cast (omega arith) refl (Balance-trans q k ext x (Balance-trans q k ext y z))

  pub step-Balance :
      (now : ℕ) (since : ℕ → ℕ) (c : Call) (b : Buffer)
      → IsWired b
      → Balance q k (arrived_in now c) (received_in c) b (step ext now since c b)
  unfolding step arrived_in arrived_frame received_in enqueue enqueue_frame unless_error
      handle_plaintext new_plaintext
  step-Balance now since (packet m data_b64) b w = by_frame (ext.decode_base64 data_b64)
    where
      by_frame :
          (c : Option Bytes)
          → Balance q k
              (arrived_frame now m c)
              0
              b
              (unless_error (enqueue_frame ext now since m c b) b)
      by_frame none = Balance-refl q k ext b w
      by_frame (some frame) = enqueued-Balance now since m frame b w
  step-Balance now since (plaintext m id) b w =
      let x = flush_expired-Balance q k ext now since b w in
      let y =
        match_or_wait-Balance q k ext (after_flush b since) (new_plaintext now m id) _ x.wired in
      Balance-cast refl (omega arith) (Balance-trans q k ext x y)
  step-Balance now since tick b w = flush_expired-Balance q k ext now since b w

  run-Balance :
      (calls : List (ℕ × (ℕ → ℕ) × Call)) (b : Buffer)
      → IsWired b
      → Balance q k (arrived calls) (received calls) b (run ext calls b)
  unfolding run arrived received
  run-Balance [] b w = Balance-refl q k ext b w
  run-Balance ((now, since, c) ∷ calls) b w =
      let x = step-Balance now since c b w in
      Balance-trans q k ext x (run-Balance calls (step ext now since c b) x.wired)

  pub flush_all-Balance :
      (since : ℕ → ℕ) (b : Buffer) → IsWired b → Balance q k 0 0 b (flush_all ext since b)
  unfolding flush_all
  flush_all-Balance since b w =
      let x = match_pending-Balance q k ext true since b w in
      let matched = match_pending_against_wire ext true since b in
      let y = write_packets-Balance q k (λ _. true) matched.packets matched x.wired in
      let written = write_packets (λ _. true) matched.packets matched in
      let z = finalize_where-Balance q k ext (λ _. true) written.pending written y.wired in
      Balance-trans q k ext x (Balance-trans q k ext y z)

write_packets-all :
    (packets : List BufferedWirePacket) (b : Buffer)
    → (write_packets (λ _. true) packets b).packets ≡ []
unfolding write_packets
write_packets-all [] b = refl
write_packets-all (pkt ∷ packets) b = write_packets-all packets (write_buffered_wire_packet b pkt)

module _ (ext : Extern) where
  finalize_where-all :
      (pending : List PendingPlaintext) (b : Buffer)
      → b.packets ≡ []
      → ((finalize_where ext (λ _. true) pending b).packets ≡ [])
        × ((finalize_where ext (λ _. true) pending b).pending ≡ [])
  unfolding finalize_where finalize_unmatched send
  finalize_where-all [] b e = (e, refl)
  finalize_where-all (pt ∷ pending) b e =
      finalize_where-all pending (finalize_unmatched ext b pt) (ground arith)

  -- After `Close` the buffer holds nothing.
  pub flush_all_empty :
      (since : ℕ → ℕ) (b : Buffer)
      → ((flush_all ext since b).packets ≡ []) × ((flush_all ext since b).pending ≡ [])
  unfolding flush_all
  flush_all_empty since b =
      let matched = match_pending_against_wire ext true since b in
      finalize_where-all _ _ (write_packets-all matched.packets matched)

  -- What the clients of the buffer see: between the creation of a buffer with a writer and a
  -- finalizer and its close, for every sequence of calls and every reading of the clock, the packets
  -- that pass a test are written out exactly as often as they were brought in, and the records of an
  -- id are sent out exactly as often as they were received.
  pub history_exactly_once :
      (q : Arrival → Bool) (k window : ℕ) (close : ℕ → ℕ) (filters : CaptureFilters)
      (calls : List (ℕ × (ℕ → ℕ) × Call))
      → let opened = new_wire_packet_buffer window true true filters in
        let closed = flush_all ext close (run ext calls opened) in
        (sent_packets q closed.trace ≡ arrived ext q k calls)
        × (sent_records k closed.trace ≡ received ext q k calls)
  unfolding new_wire_packet_buffer sent_packets sent_records held_packets held_records
  history_exactly_once q k window close filters calls =
      let opened = new_wire_packet_buffer window true true filters in
      let w : IsWired opened = record { writer = refl; finalizer = refl } in
      let x = run-Balance ext q k calls opened w in
      let y = flush_all-Balance ext q k close (run ext calls opened) x.wired in
      let z = Balance-trans q k ext x y in
      let (no_packets, no_pending) = flush_all_empty close (run ext calls opened) in
      (
        omega (arith, z.packets_balance, ap (held_packets q) no_packets),
        omega (arith, z.records_balance, ap (held_records k) no_pending),
      )
