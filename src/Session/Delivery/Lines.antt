-- ===== src/Session/Delivery/Lines.antt =====
-- How the lines of the plaintext log, written and to come, change by a message.
use netobserv_cli.Common.{
  ℕ, ◌+◌, ◌≡◌, refl, sym, ap, subst, Bool, true, false, Option, none, some, arith, ◌==◌,
  if◌then◌else◌, if_true,
}
use netobserv_cli.Text.{Bytes}
use netobserv_cli.GenericMap.{GenericMap}
use netobserv_cli.Extern.{Extern}
use netobserv_cli.WireBuffer.Defs.{Buffer}
use netobserv_cli.WireBuffer.Conservation.{IsWired}
use netobserv_cli.WireBuffer.Operations.{Call, packet, plaintext, tick, step}
use netobserv_cli.WireBuffer.History.{step-Balance, received_in}
use netobserv_cli.Session.{
  Session, hand_to_log, write_unmatched, route_plaintext, write_packet_data, route_packet,
  map_buffer,
}
use netobserv_cli.Session.Counts.{count_lines, count_lines-snoc, sent_lines, held_lines, AllWired}

module _ (ext : Extern) (k : ℕ) where
  abbrev pub buffered : Option Buffer → ℕ
  buffered b = sent_lines k b + held_lines k b

  abbrev pub hit : ℕ → ℕ
  hit id = if id == k then 1 else 0

  -- The session `r` comes from `s`, which has its number already, by `extra` lines under `k`.
  pub record Kept (extra : ℕ) (s r : Session) : Type 0 where
    pub same_log : r.has_log ≡ s.has_log
    pub same_number : r.next_id ≡ s.next_id
    pub wired : AllWired r.wire_buf
    pub more_lines :
        count_lines k r.lines + buffered r.wire_buf
        ≡ count_lines k s.lines + buffered s.wire_buf + extra

  -- A call of the buffer.
  call-Kept :
      (now : ℕ) (since : ℕ → ℕ) (c : Call) (b : Buffer)
      → IsWired b
      → IsWired (step ext now since c b)
        × (buffered (some (step ext now since c b))
            ≡ buffered (some b) + received_in ext (λ _. true) k c)
  unfolding sent_lines held_lines
  call-Kept now since c b w =
      let x = step-Balance ext (λ _. true) k now since c b w in
      (x.wired, omega (arith, x.records_balance))

  with_buffer-Kept :
      (s : Session) (b c : Buffer) (extra : ℕ)
      → s.wire_buf ≡ some b
      → IsWired c × (buffered (some c) ≡ buffered (some b) + extra)
      → Kept extra s (record s { wire_buf = some c })
  with_buffer-Kept s b c extra e h = record {
    same_log = refl;
    same_number = refl;
    wired = h.0;
    more_lines = omega (arith, h.1, ap buffered e);
  }

  write_unmatched-Kept :
      (id : ℕ) (m : GenericMap) (s : Session)
      → s.has_log ≡ true
      → AllWired s.wire_buf
      → Kept (hit id) s (write_unmatched ext id m s)
  unfolding write_unmatched hand_to_log
  write_unmatched-Kept id m s logged w =
      subst (Kept (hit id) s) (sym (if_true _ _ logged)) (record {
        same_log = refl;
        same_number = refl;
        wired = w;
        more_lines = omega (arith, count_lines-snoc k s.lines id _);
      })

  pub route_plaintext-Kept :
      (now : ℕ) (since : ℕ → ℕ) (id : ℕ) (m : GenericMap) (verified : Bool) (buffer : Option Buffer)
      (s : Session)
      → s.wire_buf ≡ buffer
      → s.has_log ≡ true
      → AllWired s.wire_buf
      → Kept (hit id) s (route_plaintext ext now since id m verified buffer s)
  unfolding route_plaintext step received_in
  route_plaintext-Kept now since id m true (some b) s e logged w =
      with_buffer-Kept s b _ (hit id) e
        (call-Kept now since (plaintext m id) b (subst AllWired e w))
  route_plaintext-Kept now since id m true none s e logged w = write_unmatched-Kept id m s logged w
  route_plaintext-Kept now since id m false buffer s e logged w =
      write_unmatched-Kept id m s logged w

  write_packet_data-Kept :
      (m : GenericMap) (frame : Option Bytes) (s : Session)
      → AllWired s.wire_buf
      → Kept 0 s (write_packet_data ext m frame s)
  unfolding write_packet_data
  write_packet_data-Kept m none s w = record {
    same_log = refl;
    same_number = refl;
    wired = w;
    more_lines = omega arith;
  }
  write_packet_data-Kept m (some frame) s w = record {
    same_log = refl;
    same_number = refl;
    wired = w;
    more_lines = omega arith;
  }

  pub route_packet-Kept :
      (now : ℕ) (since : ℕ → ℕ) (m : GenericMap) (data_b64 : Bytes) (buffer : Option Buffer)
      (s : Session)
      → s.wire_buf ≡ buffer
      → AllWired s.wire_buf
      → Kept 0 s (route_packet ext now since m data_b64 buffer s)
  unfolding route_packet step received_in
  route_packet-Kept now since m data_b64 none s e w = write_packet_data-Kept m _ s w
  route_packet-Kept now since m data_b64 (some b) s e w =
      with_buffer-Kept s b _ 0 e (call-Kept now since (packet m data_b64) b (subst AllWired e w))

  pub tick-Kept :
      (now : ℕ) (since : ℕ → ℕ) (buffer : Option Buffer)
      → AllWired buffer
      → AllWired (map_buffer (step ext now since tick) buffer)
        × (buffered (map_buffer (step ext now since tick) buffer) ≡ buffered buffer)
  unfolding map_buffer received_in
  tick-Kept now since none w = (tt, refl)
  tick-Kept now since (some b) w = let x = call-Kept now since tick b w in (x.0, omega (arith, x.1))
