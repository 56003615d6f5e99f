-- ===== src/WireBuffer/Provenance.antt =====
-- Where the records that are sent out come from, over whole histories.
use netobserv_cli.Common.{
  ℕ, sym, subst, Bool, true, false, List, [], ◌∷◌, ◌++◌, Option, none, some, Bool-cases, inl, inr,
  if_true, if_false, All, All-append, ltb, length,
}
use netobserv_cli.Text.{Bytes, is_empty}
use netobserv_cli.GenericMap.{GenericMap}
use netobserv_cli.Extern.{Extern}
use netobserv_cli.Filters.{CaptureFilters}
use netobserv_cli.Score.{BufferedWirePacket, PendingPlaintext}
use netobserv_cli.WireBuffer.Defs.{Buffer}
use netobserv_cli.WireBuffer.Exports.{
  IsTrue, IsKnown, Sound, write-Sound, write-pending, write_packets-Sound, finalize_where-Sound,
  match_loop-Sound, attempt-Sound,
}
use netobserv_cli.WireBuffer.Operations.{
  expired, write_packets, match_pending_against_wire, flush_packets, flush_pending, flush_expired,
  evict_oldest, max_buffered_wire_packets, push_packet, new_packet, enqueue, enqueue_frame,
  unless_error, new_wire_packet_buffer, new_plaintext, match_or_wait, handle_plaintext, flush_all,
  step, run, Call, packet, plaintext, tick,
}

module _ (ext : Extern) (R : ℕ → GenericMap → Type 0) where
  abbrev SoundBuffer : Buffer → Type 0
  SoundBuffer b = Sound ext R b.trace b.pending

  match_pending-Sound :
      (final : Bool) (since : ℕ → ℕ) (b : Buffer)
      → SoundBuffer b
      → SoundBuffer (match_pending_against_wire ext final since b)
  unfolding match_pending_against_wire
  match_pending-Sound final since b h = match_loop-Sound ext R final since b.pending b h

  flush_packets-Sound :
      (now : ℕ) (since : ℕ → ℕ) (b : Buffer)
      → SoundBuffer b
      → SoundBuffer (flush_packets ext now since b)
  unfolding flush_packets
  flush_packets-Sound now since b h =
      let b' = match_pending_against_wire ext false since b in
      let x =
        write_packets-Sound ext R (λ pkt. expired b.window now pkt.received_at) b'.packets b'
          (match_pending-Sound false since b h) in
      elim (Bool-cases (is_empty b.packets)) [
        | inl e ↦ subst SoundBuffer (sym (if_true _ _ e)) h
        | inr e ↦ subst SoundBuffer (sym (if_false _ _ e)) x
      ]

  flush_pending-Sound :
      (now : ℕ) (b : Buffer) → SoundBuffer b → SoundBuffer (flush_pending ext now b)
  unfolding flush_pending
  flush_pending-Sound now b h =
      let x =
        finalize_where-Sound ext R (λ pt. expired b.window now pt.received_at) b.pending b h in
      elim (Bool-cases (is_empty b.pending)) [
        | inl e ↦ subst SoundBuffer (sym (if_true _ _ e)) h
        | inr e ↦ subst SoundBuffer (sym (if_false _ _ e)) x
      ]

  flush_expired-Sound :
      (now : ℕ) (since : ℕ → ℕ) (b : Buffer)
      → SoundBuffer b
      → SoundBuffer (flush_expired ext now since b)
  unfolding flush_expired
  flush_expired-Sound now since b h = flush_pending-Sound now _ (flush_packets-Sound now since b h)

  evict_oldest-Sound :
      (b : Buffer) (packets : List BufferedWirePacket)
      → SoundBuffer b
      → SoundBuffer (evict_oldest b packets)
  unfolding evict_oldest
  evict_oldest-Sound b [] h = h
  evict_oldest-Sound b (oldest ∷ rest) (t, k) = (
    write-Sound ext R b oldest t,
    subst (All (IsKnown ext R)) (sym (write-pending ext R b oldest)) k,
  )

  push_packet-Sound :
      (b : Buffer) (pkt : BufferedWirePacket) → SoundBuffer b → SoundBuffer (push_packet pkt b)
  unfolding push_packet
  push_packet-Sound b pkt h =
      let packets = b.packets ++ pkt ∷ [] in
      elim (Bool-cases (ltb max_buffered_wire_packets (length packets))) [
        | inl e ↦ subst SoundBuffer (sym (if_true _ _ e)) (evict_oldest-Sound b packets h)
        | inr e ↦ subst SoundBuffer (sym (if_false _ _ e)) h
      ]

  match_or_wait-Sound :
      (since : ℕ → ℕ) (pt : PendingPlaintext) (b : Buffer)
      → R pt.id pt.original
      → SoundBuffer b
      → SoundBuffer (match_or_wait ext since pt b)
  unfolding match_or_wait
  match_or_wait-Sound since pt b r (t, k) =
      let x = attempt-Sound ext R b false since pt t (unfold IsKnown in r) in
      (x.0, All-append (IsKnown ext R) b.pending _ k x.1)

  -- What is asked of the records that the calls bring in.
  unfoldable pub IsReceived : Call → Type 0
  IsReceived (packet m data_b64) = Unit
  IsReceived (plaintext m id) = R id m
  IsReceived tick = Unit

  abbrev pub AllReceived : List (ℕ × (ℕ → ℕ) × Call) → Type 0
  AllReceived [] = Unit
  AllReceived ((now, since, c) ∷ calls) = IsReceived c × AllReceived calls

  step-Sound :
      (now : ℕ) (since : ℕ → ℕ) (c : Call) (b : Buffer)
      → IsReceived c
      → SoundBuffer b
      → SoundBuffer (step ext now since c b)
  unfolding step IsReceived enqueue enqueue_frame unless_error handle_plaintext new_plaintext
  step-Sound now since (packet m data_b64) b r h = by_frame (ext.decode_base64 data_b64)
    where
      by_frame :
          (c : Option Bytes) → SoundBuffer (unless_error (enqueue_frame ext now since m c b) b)
      by_frame none = h
      by_frame (some frame) =
          match_pending-Sound false _ _
            (push_packet-Sound _ (new_packet now m frame) (flush_expired-Sound now since b h))
  step-Sound now since (plaintext m id) b r h =
      match_or_wait-Sound _ (new_plaintext now m id) _ r (flush_expired-Sound now since b h)
  step-Sound now since tick b r h = flush_expired-Sound now since b h

  run-Sound :
      (calls : List (ℕ × (ℕ → ℕ) × Call)) (b : Buffer)
      → AllReceived calls
      → SoundBuffer b
      → SoundBuffer (run ext calls b)
  unfolding run
  run-Sound [] b r h = h
  run-Sound ((now, since, c) ∷ calls) b (r, rs) h =
      run-Sound calls _ rs (step-Sound now since c b r h)

  -- Over every history, from a new buffer to its close: each record that is sent out is marked as
  -- annotated, or is the unmatched form of a record that the calls brought in under the same number,
  -- which the search has not changed. (`R` is any relation that holds of the records brought in.)
  pub flush_all-IsTrue :
      (window : ℕ) (close : ℕ → ℕ) (has_writer has_finalizer : Bool) (filters : CaptureFilters)
      (calls : List (ℕ × (ℕ → ℕ) × Call))
      → AllReceived calls
      → All
          (IsTrue ext R)
          (flush_all ext close
            (run ext calls (new_wire_packet_buffer window has_writer has_finalizer filters))).trace
  unfolding flush_all new_wire_packet_buffer
  flush_all-IsTrue window close has_writer has_finalizer filters calls r =
      let ran = run ext calls (new_wire_packet_buffer window has_writer has_finalizer filters) in
      let x = match_pending-Sound true close ran (run-Sound calls _ r (tt, tt)) in
      let matched = match_pending_against_wire ext true close ran in
      let y = write_packets-Sound ext R (λ _. true) matched.packets matched x in
      let written = write_packets (λ _. true) matched.packets matched in
      (finalize_where-Sound ext R (λ _. true) written.pending written y).0
