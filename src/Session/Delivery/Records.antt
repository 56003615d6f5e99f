-- ===== src/Session/Delivery/Records.antt =====
-- Every plaintext record that the collector gets stands in the plaintext log once, under its number.
use netobserv_cli.Common.{
  ℕ, suc, ◌+◌, ◌^◌, ◌<◌, ◌≡◌, refl, sym, ap, subst, true, List, [], ◌∷◌, ◌++◌, Option, none, some,
  arith, if_true, length, Bool-cases, inl, inr, if_false,
}
use netobserv_cli.Text.{Bytes}
use netobserv_cli.GenericMap.{GenericMap, Value, str}
use netobserv_cli.Extern.{Extern}
use netobserv_cli.Filters.{plaintext_capture_enabled}
use netobserv_cli.WireBuffer.Defs.{Buffer}
use netobserv_cli.WireBuffer.Conservation.{sent_records, held_records}
use netobserv_cli.WireBuffer.Operations.{step, flush_all, new_wire_packet_buffer}
use netobserv_cli.WireBuffer.History.{flush_all-Balance, flush_all_empty}
use netobserv_cli.Session.{
  Session, Input, completed, stop, flow, handle_plaintext_record, next_plaintext_packet_id,
  numbered_record, handle_data, handle_wire_packet, dispatch, is_plaintext_record, map_buffer,
  close_session, open_session, open_with, on_message, session_step, collect,
}
use netobserv_cli.Session.Runs.{Holds, HoldsIn, Holds-completed, collect-Holds, count_bytes-Holds}
use netobserv_cli.Session.Counts.{
  numbered, numbered-next, count_lines, sent_lines, held_lines, AllWired,
}
use netobserv_cli.Session.Delivery.Lines.{
  Kept, buffered, hit, route_plaintext-Kept, route_packet-Kept, tick-Kept,
}

module _ (ext : Extern) (k : ℕ) where
  -- With `n` inputs left: the log is there, the numbers do not wrap around, and there is one line,
  -- written or to come, for each number that was given.
  record Numbering (n : ℕ) (s : Session) : Type 0 where
    logged : s.has_log ≡ true
    room : s.next_id + n < 2 ^ 64
    wired : AllWired s.wire_buf
    balance : count_lines k s.lines + buffered ext k s.wire_buf ≡ numbered k s.next_id

  Kept-Numbering : (n : ℕ) (s r : Session) → Numbering (suc n) s → Kept ext k 0 s r → Numbering n r
  Kept-Numbering n s r h x = record {
    logged = cc (h.logged, x.same_log);
    room = omega (arith, h.room, x.same_number);
    wired = x.wired;
    balance = omega (arith, h.balance, x.more_lines, ap (numbered k) x.same_number);
  }

  next_id-suc :
      (s : Session) (n : ℕ)
      → s.next_id + suc n < 2 ^ 64
      → next_plaintext_packet_id s ≡ s.next_id + 1
  unfolding next_plaintext_packet_id
  next_id-suc s n h = omega (arith, h)

  handle_plaintext_record-Numbering :
      (n now : ℕ) (since : ℕ → ℕ) (m : GenericMap) (s : Session)
      → Numbering (suc n) s
      → Numbering n (handle_plaintext_record ext now since m s)
  unfolding handle_plaintext_record
  handle_plaintext_record-Numbering n now since m s h =
      let id = next_plaintext_packet_id s in
      let m' = numbered_record ext id m in
      let s' = record s { next_id = id; shown = s.shown ++ m' ∷ [] } in
      let x = route_plaintext-Kept ext k now since id m' _ s.wire_buf s' refl h.logged h.wired in
      let e = next_id-suc s n h.room in
      record {
        logged = cc (h.logged, x.same_log);
        room = omega (arith, h.room, x.same_number, e);
        wired = x.wired;
        balance = omega (
          arith,
          h.balance,
          x.more_lines,
          numbered-next k s.next_id,
          ap (numbered k) e,
          ap (numbered k) x.same_number,
          ap (hit ext k) e,
        );
      }

  handle_data-Numbering :
      (n now : ℕ) (since : ℕ → ℕ) (m : GenericMap) (v : Option Value) (s : Session)
      → Numbering (suc n) s
      → HoldsIn (Numbering n) (handle_data ext now since m v s)
  unfolding handle_data
  handle_data-Numbering n now since m (some (str data_b64)) s h =
      Kept-Numbering n s _ h
        (route_packet-Kept ext k now since m data_b64 s.wire_buf s refl h.wired)
  handle_data-Numbering n now since m none s h =
      Kept-Numbering n s s h
        (record { same_log = refl; same_number = refl; wired = h.wired; more_lines = omega arith })
  handle_data-Numbering n now since m (some _) s h = tt

  show-Numbering :
      (n : ℕ) (s : Session) (shown : List GenericMap)
      → Numbering n s
      → Numbering n (record s { shown = shown })
  show-Numbering n s shown h = record {
    logged = h.logged;
    room = h.room;
    wired = h.wired;
    balance = h.balance;
  }

  dispatch-Numbering :
      (n now : ℕ) (since : ℕ → ℕ) (m : GenericMap) (s : Session)
      → Numbering (suc n) s
      → HoldsIn (Numbering n) (dispatch ext now since m s)
  unfolding dispatch handle_wire_packet
  dispatch-Numbering n now since m s h = elim (Bool-cases (is_plaintext_record m)) [
    | inl e ↦
        subst (HoldsIn (Numbering n)) (sym (if_true _ _ e))
          (handle_plaintext_record-Numbering n now since m s h)
    | inr e ↦
        subst (HoldsIn (Numbering n)) (sym (if_false _ _ e))
          (handle_data-Numbering n now since m _ _ (show-Numbering (suc n) s _ h))
  ]

  module _ (json_map : Bytes → Option GenericMap) (max_bytes : ℕ) where
    on_message-Numbering :
        (n now : ℕ) (since : ℕ → ℕ) (size : ℕ) (m : Option GenericMap) (s : Session)
        → Numbering (suc n) s
        → Holds (Numbering n) (on_message ext json_map max_bytes now since size m s)
    unfolding on_message
    on_message-Numbering n now since size none s h = record {
      logged = h.logged;
      room = omega (arith, h.room);
      wired = h.wired;
      balance = h.balance;
    }
    on_message-Numbering n now since size (some m) s h =
        count_bytes-Holds ext json_map max_bytes (Numbering n)
          (λ size s h. record {
            logged = h.logged;
            room = h.room;
            wired = h.wired;
            balance = h.balance;
          })
          size _ (dispatch-Numbering n now since m s h)

    session_step-Numbering :
        (n now : ℕ) (since : ℕ → ℕ) (i : Input) (s : Session)
        → Numbering (suc n) s
        → Holds (Numbering n) (session_step ext json_map max_bytes now since i s)
    unfolding session_step step
    session_step-Numbering n now since stop s h = record {
      logged = h.logged;
      room = omega (arith, h.room);
      wired = h.wired;
      balance = h.balance;
    }
    session_step-Numbering n now since Input.tick s h =
        let x = tick-Kept ext k now since s.wire_buf h.wired in
        record {
          logged = h.logged;
          room = omega (arith, h.room);
          wired = x.0;
          balance = omega (arith, h.balance, x.1);
        }
    session_step-Numbering n now since Input.append_panics s h = tt
    session_step-Numbering n now since (flow value) s h =
        on_message-Numbering n now since (length value) (json_map value) s h

  -- When it starts, with the capture of plaintext enabled and the log created.
  open_session-Numbering :
      (options : Bytes) (n : ℕ)
      → plaintext_capture_enabled options ≡ true
      → n < 2 ^ 64
      → Numbering n (open_session ext options true)
  unfolding open_session open_with new_wire_packet_buffer sent_lines held_lines sent_records
      held_records count_lines numbered
  open_session-Numbering options n enabled h =
      subst (λ e. Numbering n (open_with ext options e true)) (sym enabled)
        (record {
          logged = refl;
          room = omega (arith, h);
          wired = record { writer = refl; finalizer = refl };
          balance = ground arith;
        })

  close-lines :
      (since : ℕ → ℕ) (buffer : Option Buffer)
      → AllWired buffer
      → sent_lines k (map_buffer (flush_all ext since) buffer) ≡ buffered ext k buffer
  unfolding map_buffer sent_lines held_lines held_records
  close-lines since none w = refl
  close-lines since (some b) w =
      let x = flush_all-Balance ext (λ _. true) k since b w in
      omega (arith, x.records_balance, ap (held_records k) (flush_all_empty ext since b).1)

-- In a session that captures plaintext and whose log could be created: after it has completed and
-- closed, for each number, the log has one line under it, written by the collector or by the buffer's
-- finalizer, if the number was given to a record, and none otherwise. Fewer than 2^64 inputs come in.
pub records_logged_once :
    (ext : Extern) (json_map : Bytes → Option GenericMap) (max_bytes : ℕ) (options : Bytes)
    (inputs : List (ℕ × (ℕ → ℕ) × Input)) (s : Session) (close : ℕ → ℕ) (k : ℕ)
    → plaintext_capture_enabled options ≡ true
    → length inputs < 2 ^ 64
    → collect ext json_map max_bytes inputs (open_session ext options true) ≡ completed s
    → let closed = close_session ext close s in
      count_lines k closed.lines + sent_lines k closed.wire_buf ≡ numbered k closed.next_id
unfolding close_session
records_logged_once ext json_map max_bytes options inputs s close k enabled room e =
    let P = λ (s : Session). (n : ℕ) × Numbering ext k n s in
    let (n, h) =
      Holds-completed P _ s
        (collect-Holds ext json_map max_bytes (Numbering ext k)
          (λ n now since i s. session_step-Numbering ext k json_map max_bytes n now since i s)
          inputs (open_session ext options true)
          (open_session-Numbering ext k options (length inputs) enabled room))
        e in
    omega (arith, h.balance, close-lines ext k close s.wire_buf h.wired)
