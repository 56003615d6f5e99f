-- ===== src/WireBuffer/Expiry.antt =====
-- What a flush leaves: no packet and no record that is older than the window.
use netobserv_cli.Common.{
  ℕ, ◌+◌, ◌<◌, ◌≤◌, ◌≡◌, refl, sym, ap, ◌∙◌, Bool, true, false, List, [], ◌∷◌, arith, length,
  Bool-cases, inl, inr, if_true, if_false, subst, All,
}
use netobserv_cli.Text.{is_empty}
use netobserv_cli.Extern.{Extern}
use netobserv_cli.Score.{BufferedWirePacket, PendingPlaintext}
use netobserv_cli.WireBuffer.Defs.{Buffer}
use netobserv_cli.WireBuffer.Annotate.{Attempt, try_annotate}
use netobserv_cli.WireBuffer.Identity.{length-try_annotate}
use netobserv_cli.WireBuffer.Operations.{
  write_buffered_wire_packet, send, expired, finalize_plaintext, finalize_unmatched, after_attempt,
  write_packets, finalize_where, match_loop, match_pending_against_wire, flush_packets,
  flush_pending, flush_expired,
}

-- The buffer `c` holds no more packets than `b`, under the same window.
pub record Shrinks (b c : Buffer) : Type 0 where
  pub fewer : length c.packets ≤ length b.packets
  pub same_window : c.window ≡ b.window

Shrinks-trans : {b c d : Buffer} → Shrinks b c → Shrinks c d → Shrinks b d
Shrinks-trans x y = record {
  fewer = omega (arith, x.fewer, y.fewer);
  same_window = y.same_window ∙ x.same_window;
}

Shrinks-refl : (b : Buffer) → Shrinks b b
Shrinks-refl b = record { fewer = omega arith; same_window = refl }

write-window :
    (b : Buffer) (pkt : BufferedWirePacket) → (write_buffered_wire_packet b pkt).window ≡ b.window
unfolding write_buffered_wire_packet
write-window b pkt = ground arith

write_packets-Shrinks :
    (p : BufferedWirePacket → Bool) (packets : List BufferedWirePacket) (b : Buffer)
    → Shrinks (record b { packets = packets }) (write_packets p packets b)
unfolding write_packets
write_packets-Shrinks p [] b = record { fewer = omega arith; same_window = refl }
write_packets-Shrinks p (pkt ∷ packets) b = elim (Bool-cases (p pkt)) [
  | inl e ↦ rw e (
      ground (
        arith,
        write-window b pkt,
        write_packets-Shrinks p packets (write_buffered_wire_packet b pkt),
      ))
  | inr e ↦ rw e (ground (arith, write_packets-Shrinks p packets b))
]

-- No packet that remains is one that the test accepts.
write_packets-rest :
    (p : BufferedWirePacket → Bool) (packets : List BufferedWirePacket) (b : Buffer)
    → All (λ pkt. p pkt ≡ false) (write_packets p packets b).packets
unfolding write_packets
write_packets-rest p [] b = tt
write_packets-rest p (pkt ∷ packets) b = elim (Bool-cases (p pkt)) [
  | inl e ↦ rw e (write_packets-rest p packets (write_buffered_wire_packet b pkt))
  | inr e ↦ rw e (e, write_packets-rest p packets b)
]

module _ (ext : Extern) where
  pub after_attempt-Shrinks :
      (b : Buffer) (a : Attempt)
      → length a.packets ≡ length b.packets
      → Shrinks b (after_attempt b a)
  unfolding after_attempt finalize_plaintext send
  after_attempt-Shrinks b a e = ground arith

  match_loop-Shrinks :
      (final : Bool) (since : ℕ → ℕ) (pending : List PendingPlaintext) (b : Buffer)
      → Shrinks b (match_loop ext final since pending b)
  unfolding match_loop
  match_loop-Shrinks final since [] b = record { fewer = omega arith; same_window = refl }
  match_loop-Shrinks final since (pt ∷ pending) b =
      let a = try_annotate ext b.window b.filters final since b.packets pt in
      let x =
        after_attempt-Shrinks b a
          (length-try_annotate ext b.window b.filters final since b.packets pt) in
      let y =
        Shrinks-trans x
          (match_loop-Shrinks final (λ i. since (2 + i)) pending (after_attempt b a)) in
      record { fewer = y.fewer; same_window = y.same_window }

  pub match_pending-Shrinks :
      (final : Bool) (since : ℕ → ℕ) (b : Buffer)
      → Shrinks b (match_pending_against_wire ext final since b)
  unfolding match_pending_against_wire
  match_pending-Shrinks final since b = match_loop-Shrinks final since b.pending b

  finalize_where-packets :
      (p : PendingPlaintext → Bool) (pending : List PendingPlaintext) (b : Buffer)
      → (finalize_where ext p pending b).packets ≡ b.packets
  unfolding finalize_where finalize_unmatched send
  finalize_where-packets p [] b = refl
  finalize_where-packets p (pt ∷ pending) b = finalize_where-packets p pending _ ∙ ground arith

  finalize_where-window :
      (p : PendingPlaintext → Bool) (pending : List PendingPlaintext) (b : Buffer)
      → (finalize_where ext p pending b).window ≡ b.window
  unfolding finalize_where finalize_unmatched send
  finalize_where-window p [] b = refl
  finalize_where-window p (pt ∷ pending) b = finalize_where-window p pending _ ∙ ground arith

  finalize_where-rest :
      (p : PendingPlaintext → Bool) (pending : List PendingPlaintext) (b : Buffer)
      → All (λ pt. p pt ≡ false) (finalize_where ext p pending b).pending
  unfolding finalize_where
  finalize_where-rest p [] b = tt
  finalize_where-rest p (pt ∷ pending) b = elim (Bool-cases (p pt)) [
    | inl e ↦ rw e (finalize_where-rest p pending (finalize_unmatched ext b pt))
    | inr e ↦ rw e (e, finalize_where-rest p pending b)
  ]

  -- The buffer that is flushed at a time, as far as its packets go.
  abbrev FreshPackets : ℕ → ℕ → Buffer → Type 0
  FreshPackets window now c = All (λ pkt. expired window now pkt.received_at ≡ false) c.packets

  abbrev FreshPending : ℕ → ℕ → Buffer → Type 0
  FreshPending window now c = All (λ pt. expired window now pt.received_at ≡ false) c.pending

  is_empty-All : {A : Type 0} (P : A → Type 0) (xs : List A) → is_empty xs ≡ true → All P xs
  is_empty-All P [] e = tt
  is_empty-All P (x ∷ xs) e = cc

  flush_packets-Shrinks :
      (now : ℕ) (since : ℕ → ℕ) (b : Buffer) → Shrinks b (flush_packets ext now since b)
  unfolding flush_packets
  flush_packets-Shrinks now since b =
      let m = match_pending-Shrinks false since b in
      let b' = match_pending_against_wire ext false since b in
      let x = write_packets-Shrinks (λ pkt. expired b.window now pkt.received_at) b'.packets b' in
      elim (Bool-cases (is_empty b.packets)) [
        | inl e ↦ subst (Shrinks b) (sym (if_true _ _ e)) (Shrinks-refl b)
        | inr e ↦
            subst (Shrinks b) (sym (if_false _ _ e))
              (Shrinks-trans m (record { fewer = x.fewer; same_window = x.same_window }))
      ]

  flush_packets-fresh :
      (now : ℕ) (since : ℕ → ℕ) (b : Buffer)
      → FreshPackets b.window now (flush_packets ext now since b)
  unfolding flush_packets
  flush_packets-fresh now since b =
      let b' = match_pending_against_wire ext false since b in
      let x = write_packets-rest (λ pkt. expired b.window now pkt.received_at) b'.packets b' in
      elim (Bool-cases (is_empty b.packets)) [
        | inl e ↦ subst (FreshPackets b.window now) (sym (if_true _ _ e)) (is_empty-All _ _ e)
        | inr e ↦ subst (FreshPackets b.window now) (sym (if_false _ _ e)) x
      ]

  flush_pending-packets : (now : ℕ) (b : Buffer) → (flush_pending ext now b).packets ≡ b.packets
  unfolding flush_pending
  flush_pending-packets now b =
      let x = finalize_where-packets (λ pt. expired b.window now pt.received_at) b.pending b in
      elim (Bool-cases (is_empty b.pending)) [
        | inl e ↦ subst (λ (c : Buffer). c.packets ≡ b.packets) (sym (if_true _ _ e)) refl
        | inr e ↦ subst (λ (c : Buffer). c.packets ≡ b.packets) (sym (if_false _ _ e)) x
      ]

  flush_pending-window : (now : ℕ) (b : Buffer) → (flush_pending ext now b).window ≡ b.window
  unfolding flush_pending
  flush_pending-window now b =
      let x = finalize_where-window (λ pt. expired b.window now pt.received_at) b.pending b in
      elim (Bool-cases (is_empty b.pending)) [
        | inl e ↦ subst (λ (c : Buffer). c.window ≡ b.window) (sym (if_true _ _ e)) refl
        | inr e ↦ subst (λ (c : Buffer). c.window ≡ b.window) (sym (if_false _ _ e)) x
      ]

  flush_pending-fresh : (now : ℕ) (b : Buffer) → FreshPending b.window now (flush_pending ext now b)
  unfolding flush_pending
  flush_pending-fresh now b =
      let x = finalize_where-rest (λ pt. expired b.window now pt.received_at) b.pending b in
      elim (Bool-cases (is_empty b.pending)) [
        | inl e ↦ subst (FreshPending b.window now) (sym (if_true _ _ e)) (is_empty-All _ _ e)
        | inr e ↦ subst (FreshPending b.window now) (sym (if_false _ _ e)) x
      ]

  not_expired-recent : (window now at : ℕ) → expired window now at ≡ false → now < at + window
  unfolding expired
  not_expired-recent window now at e = ground (arith, e)

  All-weaken :
      {A : Type 0} (P Q : A → Type 0) → ((x : A) → P x → Q x) → (xs : List A) → All P xs → All Q xs
  All-weaken P Q f [] h = tt
  All-weaken P Q f (x ∷ xs) (p, h) = (f x p, All-weaken P Q f xs h)

  -- After `flushExpired` at a time, every packet and every record in the buffer was received less
  -- than the window before it.
  pub flush_expired_fresh :
      (now : ℕ) (since : ℕ → ℕ) (b : Buffer)
      → All (λ pkt. now < pkt.received_at + b.window) (flush_expired ext now since b).packets
        × All (λ pt. now < pt.received_at + b.window) (flush_expired ext now since b).pending
  unfolding flush_expired
  flush_expired_fresh now since b =
      let b' = flush_packets ext now since b in
      let same = (flush_packets-Shrinks now since b).same_window in
      let fresh_packets =
        subst (λ packets. All (λ pkt. expired b.window now pkt.received_at ≡ false) packets)
          (sym (flush_pending-packets now b')) (flush_packets-fresh now since b) in
      let fresh_pending =
        subst (λ w. FreshPending w now (flush_pending ext now b')) same
          (flush_pending-fresh now b') in
      (
        All-weaken _ _ (λ pkt. not_expired-recent b.window now pkt.received_at) _ fresh_packets,
        All-weaken _ _ (λ pt. not_expired-recent b.window now pt.received_at) _ fresh_pending,
      )

  pub flush_expired-Shrinks :
      (now : ℕ) (since : ℕ → ℕ) (b : Buffer) → Shrinks b (flush_expired ext now since b)
  unfolding flush_expired
  flush_expired-Shrinks now since b =
      let b' = flush_packets ext now since b in
      let x = flush_packets-Shrinks now since b in
      record {
        fewer = omega (arith, x.fewer, ap length (flush_pending-packets now b'));
        same_window = flush_pending-window now b' ∙ x.same_window;
      }
