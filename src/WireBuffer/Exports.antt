-- ===== src/WireBuffer/Exports.antt =====
-- What is sent out for a record: a matched record is marked, and an unmatched one is what was received.
use netobserv_cli.Common.{
  ℕ, ◌+◌, ◌≡◌, ◌≢◌, ◌⊎◌, refl, sym, subst, ap, ◌∙◌, Bool, true, false, List, [], ◌∷◌, ◌++◌,
  Bool-cases, inl, inr, if_true, if_false, All, All-append, if◌then◌else◌,
}
use netobserv_cli.Text.{codes}
use netobserv_cli.GenericMap.{GenericMap, bool, get, put, str, is_string}
use netobserv_cli.GenericMap.Laws.{get-put_self, is_string→eq, is_string_refl}
use netobserv_cli.Extern.{Extern}
use netobserv_cli.Filters.{CaptureFilters}
use netobserv_cli.Plaintext.Unmatched.{prepare_unmatched_plaintext}
use netobserv_cli.Score.{BufferedWirePacket, PendingPlaintext}
use netobserv_cli.WireBuffer.Defs.{Buffer, Event, wrote, exported, prepare_plaintext_for_match}
use netobserv_cli.WireBuffer.Annotate.{Attempt, try_annotate, annotated_plaintext}
use netobserv_cli.WireBuffer.Attempts.{try_annotate_done}
use netobserv_cli.WireBuffer.Identity.{try_annotate-Keeps}
use netobserv_cli.WireBuffer.Operations.{
  write_buffered_wire_packet, send, finalize_plaintext, finalize_unmatched, unmatched_record,
  after_attempt, still_pending, write_packets, finalize_where, match_loop,
}

-- What is sent out for a record that nothing matched: the record as it was received, or what
-- `prepareUnmatchedPlaintext` makes of it if the kernel is the source of its tuple; it is marked as
-- not annotated.
abbrev pub IsUnmatched : Extern → GenericMap → GenericMap → Type 0
IsUnmatched ext received m =
    ((get (codes "TupleSource") received ≡ str (codes "kernel"))
      × (m ≡ put (codes "PcapAnnotated") (bool false) (prepare_unmatched_plaintext ext received)))
    ⊎ ((get (codes "TupleSource") received ≢ str (codes "kernel"))
        × (m ≡ put (codes "PcapAnnotated") (bool false) received))

-- `R id m` is meant to say that the record `m` was received under the number `id`.
module _ (ext : Extern) (R : ℕ → GenericMap → Type 0) where
  -- A record that is sent out is marked as annotated, or is the unmatched form of a record received.
  unfoldable pub IsTrue : Event → Type 0
  IsTrue (wrote pkt) = Unit
  IsTrue (exported id m) =
      (get (codes "PcapAnnotated") m ≡ bool true)
      ⊎ ((received : GenericMap) × R id received × IsUnmatched ext received m)

  unfoldable pub IsKnown : PendingPlaintext → Type 0
  IsKnown pt = R pt.id pt.original

  abbrev pub Sound : List Event → List PendingPlaintext → Type 0
  Sound trace pending = All IsTrue trace × All IsKnown pending

  pub write-Sound :
      (b : Buffer) (pkt : BufferedWirePacket)
      → All IsTrue b.trace
      → All IsTrue (write_buffered_wire_packet b pkt).trace
  unfolding write_buffered_wire_packet IsTrue
  write-Sound b pkt h = elim (Bool-cases b.has_writer) [
    | inl e ↦
        subst (λ (c : Buffer). All IsTrue c.trace) (sym (if_true _ _ e))
          (All-append IsTrue b.trace (wrote pkt ∷ []) h (tt, tt))
    | inr e ↦ subst (λ (c : Buffer). All IsTrue c.trace) (sym (if_false _ _ e)) h
  ]

  send-Sound :
      (b : Buffer) (id : ℕ) (m : GenericMap)
      → All IsTrue b.trace
      → IsTrue (exported id m)
      → All IsTrue (send b id m).trace
  unfolding send
  send-Sound b id m h t = elim (Bool-cases b.has_finalizer) [
    | inl e ↦
        subst (λ (c : Buffer). All IsTrue c.trace) (sym (if_true _ _ e))
          (All-append IsTrue b.trace (exported id m ∷ []) h (t, tt))
    | inr e ↦ subst (λ (c : Buffer). All IsTrue c.trace) (sym (if_false _ _ e)) h
  ]

  pub write-pending :
      (b : Buffer) (pkt : BufferedWirePacket)
      → (write_buffered_wire_packet b pkt).pending ≡ b.pending
  unfolding write_buffered_wire_packet
  write-pending b pkt = by_writer b.has_writer
    where
      by_writer :
          (c : Bool)
          → (if c then record b { trace = b.trace ++ wrote pkt ∷ [] } else b).pending ≡ b.pending
      by_writer true = refl
      by_writer false = refl

  pub write_packets-Sound :
      (p : BufferedWirePacket → Bool) (packets : List BufferedWirePacket) (b : Buffer)
      → Sound b.trace b.pending
      → Sound (write_packets p packets b).trace (write_packets p packets b).pending
  unfolding write_packets
  write_packets-Sound p [] b h = h
  write_packets-Sound p (pkt ∷ packets) b (t, k) = elim (Bool-cases (p pkt)) [
    | inl e ↦
        let b' = write_buffered_wire_packet b pkt in
        let x =
          write_packets-Sound p packets b'
            (write-Sound b pkt t, subst (All IsKnown) (sym (write-pending b pkt)) k) in
        rw e x
    | inr e ↦ rw e (write_packets-Sound p packets b (t, k))
  ]

  unmatched_record-IsUnmatched :
      (pt : PendingPlaintext) → IsUnmatched ext pt.original (unmatched_record ext pt)
  unfolding unmatched_record
  unmatched_record-IsUnmatched pt =
      elim (Bool-cases (is_string (codes "kernel") (get (codes "TupleSource") pt.original))) [
        | inl e ↦ inl (
          is_string→eq _ _ e,
          ap (λ m. put (codes "PcapAnnotated") (bool false) m) (if_true _ _ e),
        )
        | inr e ↦ inr (
          λ k. cc (e, is_string_refl (codes "kernel"), k),
          ap (λ m. put (codes "PcapAnnotated") (bool false) m) (if_false _ _ e),
        )
      ]

  finalize-Sound :
      (b : Buffer) (pt : PendingPlaintext)
      → All IsTrue b.trace
      → IsKnown pt
      → All IsTrue (finalize_unmatched ext b pt).trace
  unfolding finalize_unmatched IsTrue IsKnown
  finalize-Sound b pt h k =
      send-Sound b pt.id (unmatched_record ext pt) h
        (inr (pt.original, k, unmatched_record-IsUnmatched pt))

  pub finalize_where-Sound :
      (p : PendingPlaintext → Bool) (pending : List PendingPlaintext) (b : Buffer)
      → Sound b.trace pending
      → Sound (finalize_where ext p pending b).trace (finalize_where ext p pending b).pending
  unfolding finalize_where
  finalize_where-Sound p [] b h = h
  finalize_where-Sound p (pt ∷ pending) b (t, (k, ks)) = elim (Bool-cases (p pt)) [
    | inl e ↦
        rw e (
          finalize_where-Sound p pending (finalize_unmatched ext b pt)
            (finalize-Sound b pt t k, ks))
    | inr e ↦ let x = finalize_where-Sound p pending b (t, ks) in rw e (x.0, (k, x.1))
  ]

  -- A record that annotated a packet is marked.
  attempt-marked :
      (window : ℕ) (filters : CaptureFilters) (final : Bool) (since : ℕ → ℕ)
      (packets : List BufferedWirePacket) (pt : PendingPlaintext)
      → (try_annotate ext window filters final since packets pt).done ≡ true
      → get
          (codes "PcapAnnotated")
          (try_annotate ext window filters final since packets pt).pt.contents
        ≡ bool true
  attempt-marked window filters final since packets pt e =
      let a = try_annotate_done ext window filters final since packets pt e in
      ap (λ (p : PendingPlaintext). get (codes "PcapAnnotated") p.contents) a.record_left
      ∙ marked (prepare_plaintext_for_match ext filters pt) a.pkt
    where
      marked :
          (p : PendingPlaintext) (pkt : BufferedWirePacket)
          → get (codes "PcapAnnotated") (annotated_plaintext ext p pkt).contents ≡ bool true
      marked p pkt =
          unfold annotated_plaintext in get-put_self (codes "PcapAnnotated") (bool true) _

  after_attempt-Sound :
      (b : Buffer) (a : Attempt)
      → All IsTrue b.trace
      → IsKnown a.pt
      → (a.done ≡ true → get (codes "PcapAnnotated") a.pt.contents ≡ bool true)
      → All IsTrue (after_attempt b a).trace × All IsKnown (still_pending a)
  unfolding after_attempt still_pending finalize_plaintext IsTrue
  after_attempt-Sound b a t k marked =
      let b' = record b { packets = a.packets } in
      elim (Bool-cases a.done) [
        | inl e ↦ (
          subst (λ (c : Buffer). All IsTrue c.trace) (sym (if_true _ _ e))
              (send-Sound b' a.pt.id a.pt.contents t (inl (marked e))),
          subst (All IsKnown) (sym (if_true _ _ e)) tt,
        )
        | inr e ↦ (
          subst (λ (c : Buffer). All IsTrue c.trace) (sym (if_false _ _ e)) t,
          subst (All IsKnown) (sym (if_false _ _ e)) (k, tt),
        )
      ]

  pub attempt-Sound :
      (b : Buffer) (final : Bool) (since : ℕ → ℕ) (pt : PendingPlaintext)
      → All IsTrue b.trace
      → IsKnown pt
      → let a = try_annotate ext b.window b.filters final since b.packets pt in
        All IsTrue (after_attempt b a).trace × All IsKnown (still_pending a)
  unfolding IsKnown
  attempt-Sound b final since pt t k =
      let a = try_annotate ext b.window b.filters final since b.packets pt in
      let same = (try_annotate-Keeps ext b.window b.filters final since b.packets pt).same_record in
      let k' =
        subst (λ m. R a.pt.id m) (sym same.same_original)
          (subst (λ id. R id pt.original) (sym same.same_id) k) in
      after_attempt-Sound b a t k' (attempt-marked b.window b.filters final since b.packets pt)

  pub match_loop-Sound :
      (final : Bool) (since : ℕ → ℕ) (pending : List PendingPlaintext) (b : Buffer)
      → Sound b.trace pending
      → Sound
          (match_loop ext final since pending b).trace
          (match_loop ext final since pending b).pending
  unfolding match_loop
  match_loop-Sound final since [] b h = h
  match_loop-Sound final since (pt ∷ pending) b (t, (k, ks)) =
      let a = try_annotate ext b.window b.filters final since b.packets pt in
      let x = attempt-Sound b final since pt t k in
      let y = match_loop-Sound final (λ i. since (2 + i)) pending (after_attempt b a) (x.0, ks) in
      (y.0, All-append IsKnown (still_pending a) _ x.1 y.1)
