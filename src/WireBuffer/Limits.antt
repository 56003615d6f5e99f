-- ===== src/WireBuffer/Limits.antt =====
-- The limit on the packets: the buffer holds at most `maxBufferedWirePackets`.
use netobserv_cli.Common.{
  ℕ, suc, ◌≤◌, sym, Bool, false, List, [], ◌∷◌, ◌++◌, Option, none, some, arith, length, Bool-cases,
  inl, inr, ltb, if_true, if_false, subst, length-append,
}
use netobserv_cli.Text.{Bytes}
use netobserv_cli.Extern.{Extern}
use netobserv_cli.Filters.{CaptureFilters}
use netobserv_cli.Score.{BufferedWirePacket, PendingPlaintext}
use netobserv_cli.WireBuffer.Defs.{Buffer}
use netobserv_cli.WireBuffer.Annotate.{try_annotate}
use netobserv_cli.WireBuffer.Identity.{length-try_annotate}
use netobserv_cli.WireBuffer.Operations.{
  after_flush, flush_expired, evict_oldest, max_buffered_wire_packets, push_packet, new_packet,
  enqueue, enqueue_frame, unless_error, new_wire_packet_buffer, new_plaintext, match_or_wait,
  handle_plaintext, step, run, Call, packet, plaintext, tick,
}
use netobserv_cli.WireBuffer.Expiry.{
  Shrinks, match_pending-Shrinks, flush_expired-Shrinks, after_attempt-Shrinks,
}

module _ (ext : Extern) where
  -- The limit on the packets.
  abbrev pub IsLimited : Buffer → Type 0
  IsLimited b = length b.packets ≤ max_buffered_wire_packets

  evict_oldest-IsLimited :
      (b : Buffer) (packets : List BufferedWirePacket)
      → IsLimited b
      → length packets ≤ suc max_buffered_wire_packets
      → IsLimited (evict_oldest b packets)
  unfolding evict_oldest
  evict_oldest-IsLimited b [] l h = l
  evict_oldest-IsLimited b (oldest ∷ rest) l h = omega arith

  push_packet-IsLimited :
      (b : Buffer) (pkt : BufferedWirePacket) → IsLimited b → IsLimited (push_packet pkt b)
  unfolding push_packet
  push_packet-IsLimited b pkt l =
      let packets = b.packets ++ pkt ∷ [] in
      let all = length-append b.packets (pkt ∷ []) in
      elim (Bool-cases (ltb max_buffered_wire_packets (length packets))) [
        | inl e ↦
            subst IsLimited (sym (if_true _ _ e))
              (evict_oldest-IsLimited b packets l (omega (arith, all)))
        | inr e ↦ subst IsLimited (sym (if_false _ _ e)) (ground arith)
      ]

  match_or_wait-Shrinks :
      (since : ℕ → ℕ) (pt : PendingPlaintext) (b : Buffer)
      → Shrinks b (match_or_wait ext since pt b)
  unfolding match_or_wait
  match_or_wait-Shrinks since pt b =
      let a = try_annotate ext b.window b.filters false since b.packets pt in
      let x =
        after_attempt-Shrinks ext b a
          (length-try_annotate ext b.window b.filters false since b.packets pt) in
      record { fewer = x.fewer; same_window = x.same_window }

  step-IsLimited :
      (now : ℕ) (since : ℕ → ℕ) (c : Call) (b : Buffer)
      → IsLimited b
      → IsLimited (step ext now since c b)
  unfolding step enqueue enqueue_frame unless_error handle_plaintext
  step-IsLimited now since (packet m data_b64) b l = by_frame (ext.decode_base64 data_b64)
    where
      by_frame : (c : Option Bytes) → IsLimited (unless_error (enqueue_frame ext now since m c b) b)
      by_frame none = l
      by_frame (some frame) =
          let x = flush_expired-Shrinks ext now since b in
          let y =
            push_packet-IsLimited (flush_expired ext now since b) (new_packet now m frame)
              (omega (arith, x.fewer)) in
          omega (
            arith,
            y,
            (match_pending-Shrinks ext false (after_flush b since)
                (push_packet (new_packet now m frame) (flush_expired ext now since b))).fewer,
          )
  step-IsLimited now since (plaintext m id) b l =
      let x = flush_expired-Shrinks ext now since b in
      omega (
        arith,
        x.fewer,
        (match_or_wait-Shrinks (after_flush b since) (new_plaintext now m id)
            (flush_expired ext now since b)).fewer,
      )
  step-IsLimited now since tick b l = omega (arith, (flush_expired-Shrinks ext now since b).fewer)

  run-IsLimited :
      (calls : List (ℕ × (ℕ → ℕ) × Call)) (b : Buffer) → IsLimited b → IsLimited (run ext calls b)
  unfolding run
  run-IsLimited [] b l = l
  run-IsLimited ((now, since, c) ∷ calls) b l =
      run-IsLimited calls _ (step-IsLimited now since c b l)

  -- After any sequence of calls on a new buffer, it holds at most 20000 packets.
  pub packets_limited :
      (window : ℕ) (has_writer has_finalizer : Bool) (filters : CaptureFilters)
      (calls : List (ℕ × (ℕ → ℕ) × Call))
      → length
          (run ext calls (new_wire_packet_buffer window has_writer has_finalizer filters)).packets
        ≤ max_buffered_wire_packets
  unfolding new_wire_packet_buffer
  packets_limited window has_writer has_finalizer filters calls =
      run-IsLimited calls _ (omega arith)
