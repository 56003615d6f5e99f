-- ===== src/Session/Delivery/Packets.antt =====
-- Every packet that the collector shows and can decode is written to the capture file once.
use netobserv_cli.Common.{
  ℕ, ◌+◌, ◌≡◌, refl, sym, ap, subst, Bool, true, false, List, [], ◌∷◌, ◌++◌, ◌∙◌, Option, none,
  some, arith, if_true, if_false, length, Bool-cases, inl, inr,
}
use netobserv_cli.Text.{Bytes, codes, eq_bytes}
use netobserv_cli.GenericMap.{GenericMap, Value, str, lookup, put, get, uint64, is_string}
use netobserv_cli.GenericMap.Laws.{lookup-put}
use netobserv_cli.Extern.{Extern}
use netobserv_cli.Filters.{plaintext_capture_enabled}
use netobserv_cli.WireBuffer.Defs.{Buffer}
use netobserv_cli.WireBuffer.Matched.{enrich_for_export-lookup}
use netobserv_cli.WireBuffer.Conservation.{sent_packets, held_packets}
use netobserv_cli.WireBuffer.Operations.{step, flush_all, new_wire_packet_buffer}
use netobserv_cli.WireBuffer.History.{flush_all-Balance, flush_all_empty}
use netobserv_cli.Session.{
  Session, Input, completed, stop, flow, handle_plaintext_record, next_plaintext_packet_id,
  numbered_record, handle_data, handle_wire_packet, dispatch, is_plaintext_record, map_buffer,
  close_session, open_session, open_with, on_message, session_step, collect,
  assign_plaintext_packet_id,
}
use netobserv_cli.Session.Runs.{Holds, HoldsIn, Holds-completed, collect-Holds, count_bytes-Holds}
use netobserv_cli.Session.Counts.{
  count_frames, of_arrival, sent_frames, held_frames, data_weight, map_weight, shown_packets,
  shown_packets-snoc, AllWired,
}
use netobserv_cli.Session.Delivery.Frames.{
  Kept, buffered, route_plaintext-Kept, route_packet-Kept, tick-Kept,
}

module _ (ext : Extern) (p : GenericMap → Bytes → Bool) where
  -- The packets that are written or held are those that were shown.
  record Balanced (s : Session) : Type 0 where
    wired : AllWired s.wire_buf
    balance : count_frames p s.frames + buffered ext p s.wire_buf ≡ shown_packets p ext s.shown

  -- What is shown adds what is sent on.
  Kept-Balanced :
      (m : GenericMap) (s r : Session)
      → Balanced s
      → Kept ext p (map_weight p ext m) (record s { shown = s.shown ++ m ∷ [] }) r
      → Balanced r
  Kept-Balanced m s r h x = record {
    wired = x.wired;
    balance = omega (
      arith,
      h.balance,
      x.more_frames,
      ap (shown_packets p ext) x.same_shown,
      shown_packets-snoc p ext s.shown m,
    );
  }

  -- The number and the text that are added leave a record one of plaintext.
  numbered_record-plaintext :
      (id : ℕ) (m : GenericMap)
      → is_plaintext_record m ≡ true
      → is_plaintext_record (numbered_record ext id m) ≡ true
  unfolding is_plaintext_record numbered_record assign_plaintext_packet_id get eq_bytes
  numbered_record-plaintext id m h =
      let e =
        enrich_for_export-lookup ext (put (codes "PacketID") (uint64 id) m) (codes "RecordType")
          refl
        ∙ lookup-put (codes "PacketID") (codes "RecordType") (uint64 id) m in
      ap (λ v. is_string (codes "plaintext") (elim v [ none ↦ Value.null | some v ↦ v ])) e ∙ h

  handle_plaintext_record-Balanced :
      (now : ℕ) (since : ℕ → ℕ) (m : GenericMap) (s : Session)
      → is_plaintext_record m ≡ true
      → Balanced s
      → Balanced (handle_plaintext_record ext now since m s)
  unfolding handle_plaintext_record map_weight
  handle_plaintext_record-Balanced now since m s is h =
      let id = next_plaintext_packet_id s in
      let m' = numbered_record ext id m in
      let s' = record s { next_id = id; shown = s.shown ++ m' ∷ [] } in
      let x = route_plaintext-Kept ext p now since id m' _ s.wire_buf s' refl h.wired in
      Kept-Balanced m' s _ h (record {
        same_shown = x.same_shown;
        wired = x.wired;
        more_frames = omega (
          arith,
          x.more_frames,
          if_true 0 (data_weight p ext m' (lookup (codes "Data") m'))
              (numbered_record-plaintext id m is),
        );
      })

  handle_data-Balanced :
      (now : ℕ) (since : ℕ → ℕ) (m : GenericMap) (v : Option Value) (s : Session)
      → data_weight p ext m v ≡ map_weight p ext m
      → Balanced s
      → HoldsIn Balanced (handle_data ext now since m v (record s { shown = s.shown ++ m ∷ [] }))
  unfolding handle_data data_weight
  handle_data-Balanced now since m (some (str data_b64)) s e h =
      let s' = record s { shown = s.shown ++ m ∷ [] } in
      let x = route_packet-Kept ext p now since m data_b64 s.wire_buf s' refl h.wired in
      Kept-Balanced m s _ h (record {
        same_shown = x.same_shown;
        wired = x.wired;
        more_frames = omega (arith, x.more_frames, e);
      })
  handle_data-Balanced now since m none s e h =
      Kept-Balanced m s _ h
        (record { same_shown = refl; wired = h.wired; more_frames = omega (arith, e) })
  handle_data-Balanced now since m (some _) s e h = tt

  dispatch-Balanced :
      (now : ℕ) (since : ℕ → ℕ) (m : GenericMap) (s : Session)
      → Balanced s
      → HoldsIn Balanced (dispatch ext now since m s)
  unfolding dispatch handle_wire_packet map_weight
  dispatch-Balanced now since m s h = elim (Bool-cases (is_plaintext_record m)) [
    | inl e ↦
        subst (HoldsIn Balanced) (sym (if_true _ _ e))
          (handle_plaintext_record-Balanced now since m s e h)
    | inr e ↦ subst (HoldsIn Balanced) (sym (if_false _ _ e)) (
        handle_data-Balanced now since m _ s
          (sym (if_false 0 (data_weight p ext m (lookup (codes "Data") m)) e)) h)
  ]

  module _ (json_map : Bytes → Option GenericMap) (max_bytes : ℕ) where
    on_message-Balanced :
        (now : ℕ) (since : ℕ → ℕ) (size : ℕ) (m : Option GenericMap) (s : Session)
        → Balanced s
        → Holds Balanced (on_message ext json_map max_bytes now since size m s)
    unfolding on_message
    on_message-Balanced now since size none s h = h
    on_message-Balanced now since size (some m) s h =
        count_bytes-Holds ext json_map max_bytes Balanced
          (λ size s h. record { wired = h.wired; balance = h.balance }) size _
          (dispatch-Balanced now since m s h)

    session_step-Balanced :
        (now : ℕ) (since : ℕ → ℕ) (i : Input) (s : Session)
        → Balanced s
        → Holds Balanced (session_step ext json_map max_bytes now since i s)
    unfolding session_step step
    session_step-Balanced now since stop s h = h
    session_step-Balanced now since Input.tick s h =
        let x = tick-Kept ext p now since s.wire_buf h.wired in
        record { wired = x.0; balance = omega (arith, h.balance, x.1) }
    session_step-Balanced now since Input.append_panics s h = tt
    session_step-Balanced now since (flow value) s h =
        on_message-Balanced now since (length value) (json_map value) s h

  open_session-Balanced :
      (options : Bytes) (log_created : Bool) → Balanced (open_session ext options log_created)
  unfolding open_session open_with new_wire_packet_buffer sent_frames held_frames sent_packets
      held_packets count_frames shown_packets
  open_session-Balanced options log_created = opened (plaintext_capture_enabled options)
    where
      opened : (e : Bool) → Balanced (open_with ext options e log_created)
      opened true = record {
        wired = record { writer = refl; finalizer = refl };
        balance = omega arith;
      }
      opened false = record { wired = tt; balance = omega arith }

  close-frames :
      (since : ℕ → ℕ) (buffer : Option Buffer)
      → AllWired buffer
      → sent_frames p (map_buffer (flush_all ext since) buffer) ≡ buffered ext p buffer
  unfolding map_buffer sent_frames held_frames held_packets
  close-frames since none w = refl
  close-frames since (some b) w =
      let x = flush_all-Balance ext (of_arrival p) 0 since b w in
      omega
        (arith, x.packets_balance, ap (held_packets (of_arrival p)) (flush_all_empty ext since b).0)

-- After a session has completed and closed, whatever its options, the packets that pass a test stand
-- in the capture file, written through the buffer or past it, exactly as often as they were shown; a
-- map is shown as a packet where it is no plaintext record and its `Data` decodes.
pub packets_written_once :
    (ext : Extern) (json_map : Bytes → Option GenericMap) (max_bytes : ℕ) (options : Bytes)
    (log_created : Bool) (inputs : List (ℕ × (ℕ → ℕ) × Input)) (s : Session) (close : ℕ → ℕ)
    (p : GenericMap → Bytes → Bool)
    → collect ext json_map max_bytes inputs (open_session ext options log_created) ≡ completed s
    → let closed = close_session ext close s in
      count_frames p closed.frames + sent_frames p closed.wire_buf
      ≡ shown_packets p ext closed.shown
unfolding close_session
packets_written_once ext json_map max_bytes options log_created inputs s close p e =
    let P = λ (s : Session). (n : ℕ) × Balanced ext p s in
    let (n, h) =
      Holds-completed P _ s
        (collect-Holds ext json_map max_bytes (λ _ s. Balanced ext p s)
          (λ n now since i s. session_step-Balanced ext p json_map max_bytes now since i s) inputs
          (open_session ext options log_created) (open_session-Balanced ext p options log_created))
        e in
    omega (arith, h.balance, close-frames ext p close s.wire_buf h.wired)
