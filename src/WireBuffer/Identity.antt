-- ===== src/WireBuffer/Identity.antt =====
-- What an attempt leaves as it was: the packets as they arrived, and the record's identity.
use netobserv_cli.Common.{ℕ, ◌≡◌, refl, ◌∙◌, ap, List, map, length, length-map, sym}
use netobserv_cli.Text.{Bytes}
use netobserv_cli.GenericMap.{GenericMap}
use netobserv_cli.Extern.{Extern}
use netobserv_cli.Common.{map-set_same, Bool, true, false, if◌then◌else◌}
use netobserv_cli.Filters.{CaptureFilters}
use netobserv_cli.Plaintext.Annotation.{Time}
use netobserv_cli.Score.{BufferedWirePacket, PendingPlaintext}
use netobserv_cli.WireBuffer.Defs.{
  best_wire_match, note_ambiguity, prepare_plaintext_for_match, Search,
}
use netobserv_cli.WireBuffer.Annotate.{Attempt, try_annotate, annotate_packet, annotated_plaintext}
use netobserv_cli.WireBuffer.Attempts.{try_annotate_cases}

-- A packet as it arrived, without what an annotation adds.
pub record Arrival : Type 0 where
  pub received_at : ℕ
  pub packet_time : Time
  pub generic_map : GenericMap
  pub frame : Bytes

abbrev pub arrival : BufferedWirePacket → Arrival
arrival pkt = record {
  received_at = pkt.received_at;
  packet_time = pkt.packet_time;
  generic_map = pkt.generic_map;
  frame = pkt.frame;
}

-- The fields of a record that matching never changes.
pub record SameRecord (p r : PendingPlaintext) : Type 0 where
  pub same_id : r.id ≡ p.id
  pub same_original : r.original ≡ p.original
  pub same_receipt : r.received_at ≡ p.received_at

module _ (ext : Extern) where
  note_ambiguity-SameRecord :
      (s : Search) (p : PendingPlaintext) → SameRecord p (note_ambiguity ext s p)
  unfolding note_ambiguity
  note_ambiguity-SameRecord s p = noted _
    where
      noted : (c : Bool) → SameRecord p (if c then record p { connection_ambiguous = true } else p)
      noted true = record { same_id = refl; same_original = refl; same_receipt = refl }
      noted false = record { same_id = refl; same_original = refl; same_receipt = refl }

  match-SameRecord :
      (filters : CaptureFilters) (packets : List BufferedWirePacket) (p : PendingPlaintext)
      → SameRecord p (best_wire_match ext filters packets p).pt
  unfolding best_wire_match prepare_plaintext_for_match
  match-SameRecord filters packets p =
      let r = note_ambiguity-SameRecord _ (prepare_plaintext_for_match ext filters p) in
      record { same_id = r.same_id; same_original = r.same_original; same_receipt = r.same_receipt }

  -- What every attempt keeps.
  pub record Keeps (packets : List BufferedWirePacket) (p : PendingPlaintext) (a : Attempt)
      : Type 0 where
    pub same_record : SameRecord p a.pt
    pub same_arrivals : map arrival a.packets ≡ map arrival packets

  pub try_annotate-Keeps :
      (window : ℕ) (filters : CaptureFilters) (final : Bool) (since : ℕ → ℕ)
      (packets : List BufferedWirePacket) (p : PendingPlaintext)
      → Keeps packets p (try_annotate ext window filters final since packets p)
  unfolding annotated_plaintext annotate_packet
  try_annotate-Keeps window filters final since packets p =
      let m = match-SameRecord filters packets p in
      try_annotate_cases ext window filters final since packets p (Keeps packets p)
        (record { same_record = m; same_arrivals = refl })
        (λ i pkt c u. record {
          same_record = record {
            same_id = m.same_id;
            same_original = m.same_original;
            same_receipt = m.same_receipt;
          };
          same_arrivals = map-set_same arrival packets i pkt _ u.stands refl;
        })

  pub length-try_annotate :
      (window : ℕ) (filters : CaptureFilters) (final : Bool) (since : ℕ → ℕ)
      (packets : List BufferedWirePacket) (p : PendingPlaintext)
      → length (try_annotate ext window filters final since packets p).packets ≡ length packets
  length-try_annotate window filters final since packets p =
      let k = try_annotate-Keeps window filters final since packets p in
      sym (length-map arrival _) ∙ ap length k.same_arrivals ∙ length-map arrival packets
