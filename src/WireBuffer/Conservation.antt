-- ===== src/WireBuffer/Conservation.antt =====
-- No packet and no record is lost or sent twice: what was sent out and what is held add up.
use netobserv_cli.Common.{
  ℕ, ◌+◌, ◌≡◌, refl, sym, ap, Bool, true, false, List, [], ◌∷◌, ◌++◌, arith, length, map,
  if◌then◌else◌, ◌==◌, Bool-cases, inl, inr, ltb, if_true, if_false, subst,
}
use netobserv_cli.GenericMap.{GenericMap}
use netobserv_cli.Text.{is_empty}
use netobserv_cli.Extern.{Extern}
use netobserv_cli.Score.{BufferedWirePacket, PendingPlaintext}
use netobserv_cli.WireBuffer.Defs.{Buffer, Event, wrote, exported}
use netobserv_cli.WireBuffer.Annotate.{Attempt, try_annotate}
use netobserv_cli.WireBuffer.Identity.{Arrival, arrival, try_annotate-Keeps}
use netobserv_cli.WireBuffer.Operations.{
  write_buffered_wire_packet, send, expired, finalize_plaintext, finalize_unmatched,
  unmatched_record, after_attempt, still_pending, write_packets, finalize_where, match_loop,
  match_pending_against_wire, flush_packets, flush_pending, flush_expired, evict_oldest,
  max_buffered_wire_packets, push_packet, match_or_wait,
}

abbrev pub count_if {ℓ} : {A : Type ℓ} → (A → Bool) → List A → ℕ
count_if q [] = 0
count_if q (x ∷ xs) = (if q x then 1 else 0) + count_if q xs

-- How many packets that pass a test were sent, and how often a record was.
unfoldable pub sent_packets : (Arrival → Bool) → List Event → ℕ
sent_packets q [] = 0
sent_packets q (wrote pkt ∷ es) = (if q (arrival pkt) then 1 else 0) + sent_packets q es
sent_packets q (exported id m ∷ es) = sent_packets q es

unfoldable pub sent_records : ℕ → List Event → ℕ
sent_records k [] = 0
sent_records k (wrote pkt ∷ es) = sent_records k es
sent_records k (exported id m ∷ es) = (if id == k then 1 else 0) + sent_records k es

unfoldable pub held_packets : (Arrival → Bool) → List BufferedWirePacket → ℕ
held_packets q packets = count_if q (map arrival packets)

unfoldable pub held_records : ℕ → List PendingPlaintext → ℕ
held_records k [] = 0
held_records k (pt ∷ pending) = (if pt.id == k then 1 else 0) + held_records k pending

sent_packets-append :
    (q : Arrival → Bool) (es fs : List Event)
    → sent_packets q (es ++ fs) ≡ sent_packets q es + sent_packets q fs
unfolding sent_packets
sent_packets-append q [] fs = omega arith
sent_packets-append q (wrote pkt ∷ es) fs = omega (arith, sent_packets-append q es fs)
sent_packets-append q (exported id m ∷ es) fs = omega (arith, sent_packets-append q es fs)

sent_records-append :
    (k : ℕ) (es fs : List Event) → sent_records k (es ++ fs) ≡ sent_records k es + sent_records k fs
unfolding sent_records
sent_records-append k [] fs = omega arith
sent_records-append k (wrote pkt ∷ es) fs = omega (arith, sent_records-append k es fs)
sent_records-append k (exported id m ∷ es) fs = omega (arith, sent_records-append k es fs)

held_packets-append :
    (q : Arrival → Bool) (xs ys : List BufferedWirePacket)
    → held_packets q (xs ++ ys) ≡ held_packets q xs + held_packets q ys
unfolding held_packets
held_packets-append q [] ys = omega arith
held_packets-append q (x ∷ xs) ys = omega (arith, held_packets-append q xs ys)

held_records-append :
    (k : ℕ) (xs ys : List PendingPlaintext)
    → held_records k (xs ++ ys) ≡ held_records k xs + held_records k ys
unfolding held_records
held_records-append k [] ys = omega arith
held_records-append k (x ∷ xs) ys = omega (arith, held_records-append k xs ys)

-- The writer and the finalizer are set.
pub record IsWired (b : Buffer) : Type 0 where
  pub writer : b.has_writer ≡ true
  pub finalizer : b.has_finalizer ≡ true

module _ (q : Arrival → Bool) (k : ℕ) where
  -- The buffer `c` comes from `b`, where `p` packets that pass and `r` records of the id came in.
  pub record Balance (p r : ℕ) (b c : Buffer) : Type 0 where
    pub wired : IsWired c
    pub packets_balance :
        sent_packets q c.trace + held_packets q c.packets
        ≡ sent_packets q b.trace + held_packets q b.packets + p
    pub records_balance :
        sent_records k c.trace + held_records k c.pending
        ≡ sent_records k b.trace + held_records k b.pending + r

  -- The buffer `c` comes from `b` by sending `p` packets that pass and `r` records of the id.
  record Sends (p r : ℕ) (b c : Buffer) : Type 0 where
    wired : IsWired c
    more_packets : sent_packets q c.trace ≡ sent_packets q b.trace + p
    more_records : sent_records k c.trace ≡ sent_records k b.trace + r
    same_packets : c.packets ≡ b.packets
    same_pending : c.pending ≡ b.pending

  abbrev pub weight : BufferedWirePacket → ℕ
  weight pkt = if q (arrival pkt) then 1 else 0

  abbrev pub hits : ℕ → ℕ
  hits id = if id == k then 1 else 0

  held_packets-cons :
      (pkt : BufferedWirePacket) (packets : List BufferedWirePacket)
      → held_packets q (pkt ∷ packets) ≡ weight pkt + held_packets q packets
  unfolding held_packets
  held_packets-cons pkt packets = refl

  write-Sends :
      (b : Buffer) (pkt : BufferedWirePacket)
      → IsWired b
      → Sends (weight pkt) 0 b (write_buffered_wire_packet b pkt)
  unfolding write_buffered_wire_packet sent_packets sent_records
  write-Sends b pkt w = ground (
    arith,
    sent_packets-append q b.trace (wrote pkt ∷ []),
    sent_records-append k b.trace (wrote pkt ∷ []),
  )

  send-Sends :
      (b : Buffer) (id : ℕ) (m : GenericMap) → IsWired b → Sends 0 (hits id) b (send b id m)
  unfolding send sent_packets sent_records
  send-Sends b id m w = ground (
    arith,
    sent_packets-append q b.trace (exported id m ∷ []),
    sent_records-append k b.trace (exported id m ∷ []),
  )

  pub write_packets-Balance :
      (p : BufferedWirePacket → Bool) (packets : List BufferedWirePacket) (b : Buffer)
      → IsWired b
      → Balance 0 0 (record b { packets = packets }) (write_packets p packets b)
  unfolding write_packets
  write_packets-Balance p [] b w = ground arith
  write_packets-Balance p (pkt ∷ packets) b w = elim (Bool-cases (p pkt)) [
    | inl e ↦
        let b' = write_buffered_wire_packet b pkt in
        let x = write-Sends b pkt w in
        rw e (
          ground
            (arith, x, held_packets-cons pkt packets, write_packets-Balance p packets b' x.wired))
    | inr e ↦ rw e (
        ground (
          arith,
          held_packets-cons pkt packets,
          write_packets-Balance p packets b w,
          held_packets-cons pkt (write_packets p packets b).packets,
        ))
  ]

  module _ (ext : Extern) where
    pub finalize_where-Balance :
        (p : PendingPlaintext → Bool) (pending : List PendingPlaintext) (b : Buffer)
        → IsWired b
        → Balance 0 0 (record b { pending = pending }) (finalize_where ext p pending b)
    unfolding finalize_where finalize_unmatched held_records
    finalize_where-Balance p [] b w = ground arith
    finalize_where-Balance p (pt ∷ pending) b w = elim (Bool-cases (p pt)) [
      | inl e ↦
          let b' = finalize_unmatched ext b pt in
          let x = send-Sends b pt.id (unmatched_record ext pt) w in
          rw e (ground (arith, x, finalize_where-Balance p pending b' x.wired))
      | inr e ↦ rw e (ground (arith, finalize_where-Balance p pending b w))
    ]

    after_attempt-Balance :
        (b : Buffer) (a : Attempt) (id : ℕ)
        → IsWired b
        → a.pt.id ≡ id
        → held_packets q a.packets ≡ held_packets q b.packets
        → IsWired (after_attempt b a)
          × (sent_packets q (after_attempt b a).trace + held_packets q (after_attempt b a).packets
              ≡ sent_packets q b.trace + held_packets q b.packets)
          × (sent_records k (after_attempt b a).trace + held_records k (still_pending a)
              ≡ sent_records k b.trace + hits id)
    unfolding after_attempt still_pending finalize_plaintext held_records
    after_attempt-Balance b a id w e h =
        let b' = record b { packets = a.packets } in
        let x =
          send-Sends b' a.pt.id a.pt.contents
            (record { writer = w.writer; finalizer = w.finalizer }) in
        ground (arith, x)

    attempt-held :
        (b : Buffer) (final : Bool) (since : ℕ → ℕ) (pt : PendingPlaintext)
        → held_packets q (try_annotate ext b.window b.filters final since b.packets pt).packets
          ≡ held_packets q b.packets
    unfolding held_packets
    attempt-held b final since pt =
        ap (count_if q)
          (try_annotate-Keeps ext b.window b.filters final since b.packets pt).same_arrivals

    match_loop-Balance :
        (final : Bool) (since : ℕ → ℕ) (pending : List PendingPlaintext) (b : Buffer)
        → IsWired b
        → Balance 0 0 (record b { pending = pending }) (match_loop ext final since pending b)
    unfolding match_loop held_records
    match_loop-Balance final since [] b w = ground arith
    match_loop-Balance final since (pt ∷ pending) b w =
        let a = try_annotate ext b.window b.filters final since b.packets pt in
        let same =
          (try_annotate-Keeps ext b.window b.filters final since b.packets pt).same_record in
        let x = after_attempt-Balance b a pt.id w same.same_id (attempt-held b final since pt) in
        let later = match_loop-Balance final (λ i. since (2 + i)) pending (after_attempt b a) x.0 in
        let rest = match_loop ext final (λ i. since (2 + i)) pending (after_attempt b a) in
        record {
          wired = record { writer = later.wired.writer; finalizer = later.wired.finalizer };
          packets_balance = omega (arith, x.1, later.packets_balance);
          records_balance = omega (
            arith,
            x.2,
            later.records_balance,
            held_records-append k (still_pending a) rest.pending,
          );
        }

    pub match_pending-Balance :
        (final : Bool) (since : ℕ → ℕ) (b : Buffer)
        → IsWired b
        → Balance 0 0 b (match_pending_against_wire ext final since b)
    unfolding match_pending_against_wire
    match_pending-Balance final since b w =
        let m = match_loop-Balance final since b.pending b w in
        record {
          wired = m.wired;
          packets_balance = m.packets_balance;
          records_balance = m.records_balance;
        }

    pub Balance-trans :
        {p r p' r' : ℕ} {b c d : Buffer}
        → Balance p r b c
        → Balance p' r' c d
        → Balance (p + p') (r + r') b d
    Balance-trans x y = record {
      wired = y.wired;
      packets_balance = omega (arith, x.packets_balance, y.packets_balance);
      records_balance = omega (arith, x.records_balance, y.records_balance);
    }

    pub Balance-refl : (b : Buffer) → IsWired b → Balance 0 0 b b
    Balance-refl b w = record {
      wired = w;
      packets_balance = omega arith;
      records_balance = omega arith;
    }

    flush_packets-Balance :
        (now : ℕ) (since : ℕ → ℕ) (b : Buffer)
        → IsWired b
        → Balance 0 0 b (flush_packets ext now since b)
    unfolding flush_packets
    flush_packets-Balance now since b w =
        let m = match_pending-Balance false since b w in
        let b' = match_pending_against_wire ext false since b in
        let x =
          write_packets-Balance (λ pkt. expired b.window now pkt.received_at) b'.packets b'
            m.wired in
        elim (Bool-cases (is_empty b.packets)) [
          | inl e ↦ subst (Balance 0 0 b) (sym (if_true _ _ e)) (Balance-refl b w)
          | inr e ↦ subst (Balance 0 0 b) (sym (if_false _ _ e)) (Balance-trans m x)
        ]

    flush_pending-Balance :
        (now : ℕ) (b : Buffer) → IsWired b → Balance 0 0 b (flush_pending ext now b)
    unfolding flush_pending
    flush_pending-Balance now b w =
        let x = finalize_where-Balance (λ pt. expired b.window now pt.received_at) b.pending b w in
        elim (Bool-cases (is_empty b.pending)) [
          | inl e ↦ subst (Balance 0 0 b) (sym (if_true _ _ e)) (Balance-refl b w)
          | inr e ↦ subst (Balance 0 0 b) (sym (if_false _ _ e)) x
        ]

    pub flush_expired-Balance :
        (now : ℕ) (since : ℕ → ℕ) (b : Buffer)
        → IsWired b
        → Balance 0 0 b (flush_expired ext now since b)
    unfolding flush_expired
    flush_expired-Balance now since b w =
        let x = flush_packets-Balance now since b w in
        Balance-trans x (flush_pending-Balance now _ x.wired)

    held_packets-nil : held_packets q [] ≡ 0
    unfolding held_packets
    held_packets-nil = refl

    evict_oldest-Balance :
        (b : Buffer) (packets : List BufferedWirePacket) (n : ℕ)
        → IsWired b
        → held_packets q packets ≡ held_packets q b.packets + n
        → Balance n 0 b (evict_oldest b packets)
    unfolding evict_oldest
    evict_oldest-Balance b [] n w h = record {
      wired = w;
      packets_balance = omega (arith, held_packets-nil);
      records_balance = omega arith;
    }
    evict_oldest-Balance b (oldest ∷ rest) n w h =
        let x = write-Sends b oldest w in
        record {
          wired = record { writer = x.wired.writer; finalizer = x.wired.finalizer };
          packets_balance = omega (arith, x.more_packets, held_packets-cons oldest rest);
          records_balance = omega (arith, x.more_records, ap (held_records k) x.same_pending);
        }

    pub push_packet-Balance :
        (b : Buffer) (pkt : BufferedWirePacket)
        → IsWired b
        → Balance (weight pkt) 0 b (push_packet pkt b)
    unfolding push_packet
    push_packet-Balance b pkt w =
        let packets = b.packets ++ pkt ∷ [] in
        let all = held_packets-append q b.packets (pkt ∷ []) in
        elim (Bool-cases (ltb max_buffered_wire_packets (length packets))) [
          | inl e ↦ subst (Balance (weight pkt) 0 b) (sym (if_true _ _ e)) (
              evict_oldest-Balance b packets (weight pkt) w
                (omega (arith, all, held_packets-cons pkt [], held_packets-nil)))
          | inr e ↦ subst (Balance (weight pkt) 0 b) (sym (if_false _ _ e)) (record {
            wired = record { writer = w.writer; finalizer = w.finalizer };
            packets_balance = omega (arith, all, held_packets-cons pkt [], held_packets-nil);
            records_balance = omega arith;
          })
        ]

    pub match_or_wait-Balance :
        (since : ℕ → ℕ) (pt : PendingPlaintext) (b : Buffer)
        → IsWired b
        → Balance 0 (hits pt.id) b (match_or_wait ext since pt b)
    unfolding match_or_wait
    match_or_wait-Balance since pt b w =
        let a = try_annotate ext b.window b.filters false since b.packets pt in
        let same =
          (try_annotate-Keeps ext b.window b.filters false since b.packets pt).same_record in
        let x = after_attempt-Balance b a pt.id w same.same_id (attempt-held b false since pt) in
        record {
          wired = record { writer = x.0.writer; finalizer = x.0.finalizer };
          packets_balance = omega (arith, x.1);
          records_balance = omega (arith, x.2, held_records-append k b.pending (still_pending a));
        }
