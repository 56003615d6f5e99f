-- ===== src/Session/Limits.antt =====
-- The limit on the bytes of a capture (`--max-bytes`), and the messages that end the collector.
use netobserv_cli.Common.{
  ℕ, ◌+◌, ◌≤◌, ◌≡◌, refl, ap, subst, Bool, true, false, ◌||◌, ◌&&◌, List, [], ◌∷◌, ◌++◌, Option,
  none, some, arith, ltb, if◌then◌else◌, length,
}
use netobserv_cli.Text.{Bytes, codes}
use netobserv_cli.GenericMap.{GenericMap, Value, str, lookup}
use netobserv_cli.Extern.{Extern}
use netobserv_cli.WireBuffer.Defs.{Buffer}
use netobserv_cli.Session.{
  Session, Input, Outcome, waiting, completed, crashed, stop, flow, hand_to_log, write_unmatched,
  route_plaintext, handle_plaintext_record, write_packet_data, route_packet, handle_data,
  handle_wire_packet, dispatch, is_plaintext_record, count_bytes, on_message, session_step, collect,
}

-- The `Data` of a packet is missing or a text.
unfoldable pub is_text_or_missing : Option Value → Bool
is_text_or_missing none = true
is_text_or_missing (some (str s)) = true
is_text_or_missing (some _) = false

-- A map that the handlers take.
unfoldable pub is_sendable : GenericMap → Bool
unfolding is_text_or_missing
is_sendable m = is_plaintext_record m || is_text_or_missing (lookup (codes "Data") m)

-- A handler counts no bytes, and fails only at a map that is not sendable.
abbrev Handled : ℕ → Bool → Option Session → Type 0
Handled total sendable none = sendable ≡ false
Handled total sendable (some r) = r.total_bytes ≡ total

module _ (ext : Extern) where
  write_unmatched-total :
      (id : ℕ) (m : GenericMap) (s : Session)
      → (write_unmatched ext id m s).total_bytes ≡ s.total_bytes
  unfolding write_unmatched hand_to_log
  write_unmatched-total id m s = by_log _ s.has_log
    where
      by_log :
          (m : GenericMap) (b : Bool)
          → (if b then record s { lines = s.lines ++ (id, m) ∷ [] } else s).total_bytes
            ≡ s.total_bytes
      by_log m true = refl
      by_log m false = refl

  route_plaintext-total :
      (now : ℕ) (since : ℕ → ℕ) (id : ℕ) (m : GenericMap) (verified : Bool) (buffer : Option Buffer)
      (s : Session)
      → (route_plaintext ext now since id m verified buffer s).total_bytes ≡ s.total_bytes
  unfolding route_plaintext
  route_plaintext-total now since id m true (some b) s = refl
  route_plaintext-total now since id m true none s = write_unmatched-total id m s
  route_plaintext-total now since id m false buffer s = write_unmatched-total id m s

  route_packet-total :
      (now : ℕ) (since : ℕ → ℕ) (m : GenericMap) (data_b64 : Bytes) (buffer : Option Buffer)
      (s : Session)
      → (route_packet ext now since m data_b64 buffer s).total_bytes ≡ s.total_bytes
  unfolding route_packet write_packet_data
  route_packet-total now since m data_b64 (some b) s = refl
  route_packet-total now since m data_b64 none s = by_frame (ext.decode_base64 data_b64)
    where
      by_frame : (f : Option Bytes) → (write_packet_data ext m f s).total_bytes ≡ s.total_bytes
      by_frame none = refl
      by_frame (some frame) = refl

  handle_data-Handled :
      (now : ℕ) (since : ℕ → ℕ) (m : GenericMap) (v : Option Value) (s : Session)
      → Handled s.total_bytes (is_text_or_missing v) (handle_data ext now since m v s)
  unfolding handle_data is_text_or_missing
  handle_data-Handled now since m (some (str data_b64)) s =
      route_packet-total now since m data_b64 s.wire_buf s
  handle_data-Handled now since m none s = refl
  handle_data-Handled now since m (some _) s = refl

  dispatch-Handled :
      (now : ℕ) (since : ℕ → ℕ) (m : GenericMap) (s : Session)
      → Handled s.total_bytes (is_sendable m) (dispatch ext now since m s)
  unfolding dispatch handle_wire_packet handle_plaintext_record is_sendable
  dispatch-Handled now since m s = by_kind (is_plaintext_record m)
    where
      by_kind :
          (b : Bool)
          → Handled s.total_bytes (b || is_text_or_missing (lookup (codes "Data") m)) (
              if b
              then some (handle_plaintext_record ext now since m s)
              else handle_wire_packet ext now since m s)
      by_kind true = route_plaintext-total now since _ _ _ s.wire_buf _
      by_kind false = handle_data-Handled now since m _ _

  module _ (json_map : Bytes → Option GenericMap) (max_bytes : ℕ) where
    -- The bytes that a message counts for: none if it does not parse.
    unfoldable pub parsed_size : ℕ → Option GenericMap → ℕ
    parsed_size size none = 0
    parsed_size size (some m) = size

    unfoldable pub input_size : Input → ℕ
    unfolding parsed_size
    input_size stop = 0
    input_size Input.tick = 0
    input_size Input.append_panics = 0
    input_size (flow value) = parsed_size (length value) (json_map value)

    unfoldable pub parsed_bytes : List (ℕ × (ℕ → ℕ) × Input) → ℕ
    unfolding input_size
    parsed_bytes [] = 0
    parsed_bytes ((now, since, i) ∷ inputs) = input_size i + parsed_bytes inputs

    unfoldable pub is_handled : Option GenericMap → Bool
    is_handled none = true
    is_handled (some m) = is_sendable m

    -- No message has a `Data` that is not a text, and no goroutine of `AppendFlow` panics.
    unfoldable pub all_handled : List (ℕ × (ℕ → ℕ) × Input) → Bool
    unfolding is_handled
    all_handled [] = true
    all_handled ((now, since, flow value) ∷ inputs) =
        is_handled (json_map value) && all_handled inputs
    all_handled ((now, since, stop) ∷ inputs) = all_handled inputs
    all_handled ((now, since, Input.tick) ∷ inputs) = all_handled inputs
    all_handled ((now, since, Input.append_panics) ∷ inputs) = false

    -- What a round does with the count.
    abbrev Counted : ℕ → ℕ → Bool → Outcome → Type 0
    Counted total size handled (waiting r) =
        (r.total_bytes ≡ total + size) × (r.total_bytes ≤ max_bytes)
    Counted total size handled (completed r) = r.total_bytes ≡ total + size
    Counted total size handled crashed = handled ≡ false

    count_bytes-Counted :
        (size total : ℕ) (handled : Bool) (s : Option Session)
        → Handled total handled s
        → Counted total size handled (count_bytes ext json_map max_bytes size s)
    unfolding count_bytes
    count_bytes-Counted size total handled none h = h
    count_bytes-Counted size total handled (some s) h =
        by_limit (ltb max_bytes (s.total_bytes + size)) refl
      where
        by_limit :
            (over : Bool)
            → ltb max_bytes (s.total_bytes + size) ≡ over
            → Counted total size handled (
                if over
                then completed (record s { total_bytes = s.total_bytes + size })
                else waiting (record s { total_bytes = s.total_bytes + size }))
        by_limit true e = omega (arith, h)
        by_limit false e = (omega (arith, h), ground (arith, e))

    on_message-Counted :
        (now : ℕ) (since : ℕ → ℕ) (size : ℕ) (m : Option GenericMap) (s : Session)
        → s.total_bytes ≤ max_bytes
        → Counted s.total_bytes
            (parsed_size size m)
            (is_handled m)
            (on_message ext json_map max_bytes now since size m s)
    unfolding on_message parsed_size is_handled
    on_message-Counted now since size none s h = (omega arith, h)
    on_message-Counted now since size (some m) s h =
        count_bytes-Counted size s.total_bytes (is_sendable m) _ (dispatch-Handled now since m s)

    -- Whether the round goes on: it is no panic, and its message has no `Data` that is not a text.
    unfoldable step_handled : Input → Bool
    step_handled (flow value) = is_handled (json_map value)
    step_handled Input.append_panics = false
    step_handled _ = true

    step-Counted :
        (now : ℕ) (since : ℕ → ℕ) (i : Input) (s : Session)
        → s.total_bytes ≤ max_bytes
        → Counted s.total_bytes
            (input_size i)
            (step_handled i)
            (session_step ext json_map max_bytes now since i s)
    unfolding session_step input_size step_handled
    step-Counted now since stop s h = omega arith
    step-Counted now since Input.tick s h = (omega arith, h)
    step-Counted now since Input.append_panics s h = refl
    step-Counted now since (flow value) s h =
        on_message-Counted now since (length value) (json_map value) s h

    -- Nothing but the messages that parse is counted, each with its length: while the collector waits,
    -- their bytes are within the limit; when it has completed, after the first of the inputs, the
    -- bytes of those exceed it by at most one message.
    abbrev pub Within : ℕ → ℕ → List (ℕ × (ℕ → ℕ) × Input) → Outcome → Type 0
    Within largest total inputs (waiting r) =
        (r.total_bytes ≡ total + parsed_bytes inputs) × (r.total_bytes ≤ max_bytes)
    Within largest total inputs (completed r) =
        (done : List (ℕ × (ℕ → ℕ) × Input)) × (rest : List (ℕ × (ℕ → ℕ) × Input)) × (done ++ rest
          ≡ inputs)
        × (r.total_bytes ≡ total + parsed_bytes done)
        × (r.total_bytes ≤ max_bytes + largest)
    Within largest total inputs crashed = Unit

    Within-cons :
        (largest total : ℕ) (now : ℕ) (since : ℕ → ℕ) (i : Input)
        (inputs : List (ℕ × (ℕ → ℕ) × Input)) (o : Outcome)
        → Within largest (total + input_size i) inputs o
        → Within largest total ((now, since, i) ∷ inputs) o
    unfolding parsed_bytes
    Within-cons largest total now since i inputs (waiting r) h = (omega (arith, h.0), h.1)
    Within-cons largest total now since i inputs (completed r) (done, rest, e, c, b) =
        ((now, since, i) ∷ done, rest, ap (λ xs. (now, since, i) ∷ xs) e, omega (arith, c), b)
    Within-cons largest total now since i inputs crashed h = tt

    -- Each message has at most so many bytes.
    unfoldable pub AllAtMost : ℕ → List (ℕ × (ℕ → ℕ) × Input) → Type 0
    AllAtMost largest [] = Unit
    AllAtMost largest ((now, since, i) ∷ inputs) =
        (input_size i ≤ largest) × AllAtMost largest inputs

    -- A capture that starts within its limit counts exactly the bytes of the messages that parse:
    -- while it waits for more, those of all its messages, which stay within the limit; when it has
    -- completed, those of the messages up to then, which exceed it by at most the largest message.
    pub collect-Within :
        (largest : ℕ) (inputs : List (ℕ × (ℕ → ℕ) × Input)) (s : Session)
        → s.total_bytes ≤ max_bytes
        → AllAtMost largest inputs
        → Within largest s.total_bytes inputs (collect ext json_map max_bytes inputs s)
    unfolding collect AllAtMost parsed_bytes
    collect-Within largest [] s h small = (omega arith, h)
    collect-Within largest ((now, since, i) ∷ inputs) s h small =
        by_round (session_step ext json_map max_bytes now since i s) (step-Counted now since i s h)
          (λ r b. collect-Within largest inputs r b small.1)
      where
        by_round :
            (o : Outcome)
            → Counted s.total_bytes (input_size i) (step_handled i) o
            → ((r : Session)
                → r.total_bytes ≤ max_bytes
                → Within largest r.total_bytes inputs (collect ext json_map max_bytes inputs r))
            → Within largest s.total_bytes ((now, since, i) ∷ inputs) (elim o as (λ _. Outcome) [
              | waiting r ↦ collect ext json_map max_bytes inputs r
              | completed r ↦ completed r
              | crashed ↦ crashed
            ])
        by_round (waiting r) c further =
            Within-cons largest s.total_bytes now since i inputs
              (collect ext json_map max_bytes inputs r)
              (subst (λ n. Within largest n inputs (collect ext json_map max_bytes inputs r)) c.0
                (further r c.1))
        by_round (completed r) c further =
            ((now, since, i) ∷ [], inputs, refl, omega (arith, c), omega (arith, c, h, small.0))
        by_round crashed c further = tt
