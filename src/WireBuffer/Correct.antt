-- ===== src/WireBuffer/Correct.antt =====
-- What an annotation promises: the packet it is made of fits the record.
use netobserv_cli.Common.{
  ℕ, subst, ◌⊎◌, ◌≡◌, refl, Bool, true, false, List, some, arith, get_elem?, set,
}
use netobserv_cli.Common.Int.{ℤ, pos, negsuc, ◌≤ℤ◌, ◌<ℤ◌, ◌+ℤ◌}
use netobserv_cli.Extern.{Extern}
use netobserv_cli.Endpoints.{plaintext_has_tuple}
use netobserv_cli.Filters.{CaptureFilters}
use netobserv_cli.Score.{
  BufferedWirePacket, PendingPlaintext, min_annotation_score, score_plaintext_wire_match,
}
use netobserv_cli.Score.Direction.{Connected, Fits, score-Fits}
use netobserv_cli.WireBuffer.Defs.{prepare_plaintext_for_match, scores_ambiguous, search_all}
use netobserv_cli.WireBuffer.Annotate.{
  annotate_packet, annotated_plaintext, must_wait, try_annotate,
}
use netobserv_cli.WireBuffer.Best.{search_all_found}
use netobserv_cli.WireBuffer.Attempts.{try_annotate_done}

-- A score that reaches a bound is a number.
reached : (n : ℕ) (z : ℤ) → pos n ≤ℤ z → (s : ℕ) × (z ≡ pos s)
reached n (pos s) h = (s, refl)
reached n (negsuc m) h = absurd (omega arith)

-- An attempt that annotates a packet takes a packet of the buffer that was not annotated and that fits
-- the record: no other rule than `scorePlaintextWireMatch` pairs a record with a packet.
pub annotated-Fits :
    (ext : Extern) (window : ℕ) (filters : CaptureFilters) (final : Bool) (since : ℕ → ℕ)
    (packets : List BufferedWirePacket) (pt : PendingPlaintext)
    → (try_annotate ext window filters final since packets pt).done ≡ true
    → (i : ℕ) × (pkt : BufferedWirePacket) × (get_elem? packets i ≡ some pkt)
      × (pkt.annotated ≡ false)
      × Fits ext pkt (prepare_plaintext_for_match ext filters pt)
annotated-Fits ext window filters final since packets pt e =
    let a = try_annotate_done ext window filters final since packets pt e in
    let (s, score) = reached _ _ a.enough in
    (a.position, a.pkt, a.stands, a.fresh, score-Fits ext a.pkt _ filters s score)

-- Where the record has a whole tuple, an attempt that annotates a packet takes one of the record's
-- connection.
pub annotated-Connected :
    (ext : Extern) (window : ℕ) (filters : CaptureFilters) (final : Bool) (since : ℕ → ℕ)
    (packets : List BufferedWirePacket) (pt : PendingPlaintext)
    → (try_annotate ext window filters final since packets pt).done ≡ true
    → plaintext_has_tuple ext (prepare_plaintext_for_match ext filters pt).contents ≡ true
    → (i : ℕ) × (pkt : BufferedWirePacket) × (get_elem? packets i ≡ some pkt)
      × (pkt.annotated ≡ false)
      × Connected ext pkt (prepare_plaintext_for_match ext filters pt).contents
annotated-Connected ext window filters final since packets pt e t =
    let (i, pkt, stands, fresh, fits) =
      annotated-Fits ext window filters final since packets pt e in
    (i, pkt, stands, fresh, fits.connection t)

-- The packet that the search settles on scores at least what every other one scores that is not
-- annotated yet.
pub search_highest :
    (ext : Extern) (filters : CaptureFilters) (pt : PendingPlaintext)
    (packets : List BufferedWirePacket) (i j : ℕ) (pkt other : BufferedWirePacket)
    → (search_all ext filters packets pt).best_idx ≡ some i
    → get_elem? packets i ≡ some pkt
    → get_elem? packets j ≡ some other
    → other.annotated ≡ false
    → score_plaintext_wire_match ext other pt filters
      ≤ℤ score_plaintext_wire_match ext pkt pt filters
search_highest ext filters pt packets i j pkt other found at_i at_j fresh =
    let (p, at_p, _, _, _, high, _) = search_all_found ext filters pt packets i found in
    let same : p ≡ pkt = cc in
    subst
      (λ x.
        score_plaintext_wire_match ext other pt filters
        ≤ℤ score_plaintext_wire_match ext x pt filters)
      same (high j other at_j fresh)

-- If the scores are not ambiguous, every other packet that is not annotated yet is rejected, or scores
-- lower by more than 5.
pub search_clear_lead :
    (ext : Extern) (filters : CaptureFilters) (pt : PendingPlaintext)
    (packets : List BufferedWirePacket) (i j : ℕ) (pkt other : BufferedWirePacket)
    → (search_all ext filters packets pt).best_idx ≡ some i
    → scores_ambiguous (search_all ext filters packets pt) ≡ false
    → get_elem? packets i ≡ some pkt
    → get_elem? packets j ≡ some other
    → other.annotated ≡ false
    → (i ≡ j)
      ⊎ (score_plaintext_wire_match ext other pt filters <ℤ pos 0)
      ⊎ (score_plaintext_wire_match ext other pt filters +ℤ pos 5
          <ℤ score_plaintext_wire_match ext pkt pt filters)
search_clear_lead ext filters pt packets i j pkt other found clear at_i at_j fresh =
    let (p, at_p, _, _, _, _, lead) = search_all_found ext filters pt packets i found in
    let same : p ≡ pkt = cc in
    subst
      (λ x.
        (i ≡ j)
        ⊎ (score_plaintext_wire_match ext other pt filters <ℤ pos 0)
        ⊎ (score_plaintext_wire_match ext other pt filters +ℤ pos 5
            <ℤ score_plaintext_wire_match ext x pt filters))
      same (lead clear j other at_j fresh)

-- An attempt that annotates a packet takes one of the buffer that was not annotated, that scores what
-- the record's fields ask for, and that need not wait; it changes that packet and the record alone.
pub annotated_effect :
    (ext : Extern) (window : ℕ) (filters : CaptureFilters) (final : Bool) (since : ℕ → ℕ)
    (packets : List BufferedWirePacket) (pt : PendingPlaintext)
    → (try_annotate ext window filters final since packets pt).done ≡ true
    → let prepared = prepare_plaintext_for_match ext filters pt in
      let a = try_annotate ext window filters final since packets pt in
      (i : ℕ) × (pkt : BufferedWirePacket) × (get_elem? packets i ≡ some pkt)
      × (pkt.annotated ≡ false)
      × (pos (min_annotation_score ext prepared.contents filters)
          ≤ℤ score_plaintext_wire_match ext pkt prepared filters)
      × (must_wait ext window final since prepared pkt ≡ false)
      × (a.pt ≡ annotated_plaintext ext prepared pkt)
      × (a.packets ≡ set packets i (annotate_packet ext prepared pkt))
annotated_effect ext window filters final since packets pt e =
    let a = try_annotate_done ext window filters final since packets pt e in
    (a.position, a.pkt, a.stands, a.fresh, a.enough, a.due, a.record_left, a.packets_left)
