-- ===== src/Session/Delivery/Frames.antt =====
-- How the packets of the capture file, written and held, change by a message.
use netobserv_cli.Common.{
  ℕ, ◌+◌, ◌≡◌, refl, ap, subst, Bool, true, false, [], ◌∷◌, ◌++◌, ◌∙◌, Option, none, some, arith,
  if◌then◌else◌,
}
use netobserv_cli.Text.{Bytes}
use netobserv_cli.GenericMap.{GenericMap}
use netobserv_cli.Extern.{Extern}
use netobserv_cli.WireBuffer.Defs.{Buffer}
use netobserv_cli.WireBuffer.Conservation.{IsWired}
use netobserv_cli.WireBuffer.Operations.{Call, packet, plaintext, tick, step, new_packet}
use netobserv_cli.WireBuffer.History.{step-Balance, arrived_in, arrived_frame}
use netobserv_cli.Session.{
  Session, hand_to_log, write_unmatched, route_plaintext, write_packet_data, route_packet,
  map_buffer,
}
use netobserv_cli.Session.Counts.{
  count_frames, count_frames-snoc, of_arrival, sent_frames, held_frames, frame_weight, AllWired,
}

module _ (ext : Extern) (p : GenericMap → Bytes → Bool) where
  abbrev pub buffered : Option Buffer → ℕ
  buffered b = sent_frames p b + held_frames p b

  -- The session `r` comes from `s` by `extra` packets that pass.
  pub record Kept (extra : ℕ) (s r : Session) : Type 0 where
    pub same_shown : r.shown ≡ s.shown
    pub wired : AllWired r.wire_buf
    pub more_frames :
        count_frames p r.frames + buffered r.wire_buf
        ≡ count_frames p s.frames + buffered s.wire_buf + extra

  call-Kept :
      (now : ℕ) (since : ℕ → ℕ) (c : Call) (b : Buffer)
      → IsWired b
      → IsWired (step ext now since c b)
        × (buffered (some (step ext now since c b))
            ≡ buffered (some b) + arrived_in ext (of_arrival p) 0 now c)
  unfolding sent_frames held_frames
  call-Kept now since c b w =
      let x = step-Balance ext (of_arrival p) 0 now since c b w in
      (x.wired, omega (arith, x.packets_balance))

  with_buffer-Kept :
      (s : Session) (b c : Buffer) (extra : ℕ)
      → s.wire_buf ≡ some b
      → IsWired c × (buffered (some c) ≡ buffered (some b) + extra)
      → Kept extra s (record s { wire_buf = some c })
  with_buffer-Kept s b c extra e h = record {
    same_shown = refl;
    wired = h.0;
    more_frames = omega (arith, h.1, ap buffered e);
  }

  arrived-frame_weight :
      (now : ℕ) (m : GenericMap) (frame : Option Bytes)
      → arrived_frame ext (of_arrival p) 0 now m frame ≡ frame_weight p m frame
  unfolding arrived_frame frame_weight new_packet
  arrived-frame_weight now m none = refl
  arrived-frame_weight now m (some frame) = refl

  write_unmatched-Kept :
      (id : ℕ) (m : GenericMap) (s : Session)
      → AllWired s.wire_buf
      → Kept 0 s (write_unmatched ext id m s)
  unfolding write_unmatched hand_to_log
  write_unmatched-Kept id m s w = by_log _ s.has_log
    where
      by_log :
          (m : GenericMap) (b : Bool)
          → Kept 0 s (if b then record s { lines = s.lines ++ (id, m) ∷ [] } else s)
      by_log m true = record { same_shown = refl; wired = w; more_frames = omega arith }
      by_log m false = record { same_shown = refl; wired = w; more_frames = omega arith }

  pub route_plaintext-Kept :
      (now : ℕ) (since : ℕ → ℕ) (id : ℕ) (m : GenericMap) (verified : Bool) (buffer : Option Buffer)
      (s : Session)
      → s.wire_buf ≡ buffer
      → AllWired s.wire_buf
      → Kept 0 s (route_plaintext ext now since id m verified buffer s)
  unfolding route_plaintext step arrived_in
  route_plaintext-Kept now since id m true (some b) s e w =
      with_buffer-Kept s b _ 0 e (call-Kept now since (plaintext m id) b (subst AllWired e w))
  route_plaintext-Kept now since id m true none s e w = write_unmatched-Kept id m s w
  route_plaintext-Kept now since id m false buffer s e w = write_unmatched-Kept id m s w

  write_packet_data-Kept :
      (m : GenericMap) (frame : Option Bytes) (s : Session)
      → AllWired s.wire_buf
      → Kept (frame_weight p m frame) s (write_packet_data ext m frame s)
  unfolding write_packet_data frame_weight
  write_packet_data-Kept m none s w = record {
    same_shown = refl;
    wired = w;
    more_frames = omega arith;
  }
  write_packet_data-Kept m (some frame) s w = record {
    same_shown = refl;
    wired = w;
    more_frames = omega (arith, count_frames-snoc p s.frames m frame);
  }

  pub route_packet-Kept :
      (now : ℕ) (since : ℕ → ℕ) (m : GenericMap) (data_b64 : Bytes) (buffer : Option Buffer)
      (s : Session)
      → s.wire_buf ≡ buffer
      → AllWired s.wire_buf
      → Kept
          (frame_weight p m (ext.decode_base64 data_b64))
          s
          (route_packet ext now since m data_b64 buffer s)
  unfolding route_packet step arrived_in
  route_packet-Kept now since m data_b64 none s e w = write_packet_data-Kept m _ s w
  route_packet-Kept now since m data_b64 (some b) s e w =
      let x = call-Kept now since (packet m data_b64) b (subst AllWired e w) in
      with_buffer-Kept s b _ _ e
        (x.0, x.1 ∙ ap (λ n. buffered (some b) + n) (arrived-frame_weight now m _))

  pub tick-Kept :
      (now : ℕ) (since : ℕ → ℕ) (buffer : Option Buffer)
      → AllWired buffer
      → AllWired (map_buffer (step ext now since tick) buffer)
        × (buffered (map_buffer (step ext now since tick) buffer) ≡ buffered buffer)
  unfolding map_buffer arrived_in
  tick-Kept now since none w = (tt, refl)
  tick-Kept now since (some b) w = let x = call-Kept now since tick b w in (x.0, omega (arith, x.1))
