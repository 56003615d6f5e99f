-- ===== src/WireBuffer/Annotate.antt =====
-- One matching attempt: `tryAnnotateLocked`, and the overlay of the packet's fields on the record.
use netobserv_cli.Common.{
  ℕ, ◌+◌, Bool, true, false, ◌&&◌, ◌||◌, List, [], ◌∷◌, Option, none, some, ltb, if◌then◌else◌, not,
  get_elem?, set,
}
use netobserv_cli.Common.Int.{pos, ltb_ℤ}
use netobserv_cli.Text.{Bytes, codes, is_empty, has_prefix}
use netobserv_cli.GenericMap.{
  GenericMap, Value, null, str, float64, int, int64, bool, get, put, delete_if, is_zero,
}
use netobserv_cli.Extern.{Extern}
use netobserv_cli.Endpoints.{overlay_wire_tuple_to_plaintext, plaintext_has_tuple}
use netobserv_cli.Filters.{CaptureFilters}
use netobserv_cli.Plaintext.Display.{enrich_plaintext_for_export}
use netobserv_cli.Plaintext.Annotation.{plaintext_annotation_comment}
use netobserv_cli.Score.{BufferedWirePacket, PendingPlaintext, min_annotation_score}
use netobserv_cli.WireBuffer.Defs.{BestMatch, best_wire_match}

unfoldable pub is_wire_k8s_enrichment_field : Bytes → Bool
is_wire_k8s_enrichment_field key =
    has_prefix (codes "SrcK8S_") key
    || has_prefix (codes "DstK8S_") key
    || has_prefix (codes "K8S_") key

unfoldable pub has_meaningful_generic_value : Value → Bool
has_meaningful_generic_value null = false
has_meaningful_generic_value (str s) = not (is_empty s)
has_meaningful_generic_value (float64 v) = not (is_zero v.num)
has_meaningful_generic_value (int n) = not (is_zero n)
has_meaningful_generic_value (int64 n) = not (is_zero n)
has_meaningful_generic_value _ = true

unfoldable pub copy_wire_k8s_fields_to_plaintext : GenericMap → GenericMap → GenericMap
copy_wire_k8s_fields_to_plaintext pt [] = pt
copy_wire_k8s_fields_to_plaintext pt ((k, v) ∷ wire) =
    copy_wire_k8s_fields_to_plaintext
      (if is_wire_k8s_enrichment_field k && not (has_meaningful_generic_value (get k pt))
        then put k v pt
        else pt)
      wire

unfoldable pub is_k8s_endpoint_key : Bytes → Bool
is_k8s_endpoint_key key = has_prefix (codes "SrcK8S_") key || has_prefix (codes "DstK8S_") key

unfoldable pub overlay_correlated_wire_to_plaintext : Extern → GenericMap → GenericMap → GenericMap
overlay_correlated_wire_to_plaintext ext pt wire =
    copy_wire_k8s_fields_to_plaintext
      (delete_if is_k8s_endpoint_key (overlay_wire_tuple_to_plaintext ext pt wire)) wire

-- What an attempt leaves: the record, the packets, and whether it annotated one.
pub record Attempt : Type 0 where
  pub pt : PendingPlaintext
  pub packets : List BufferedWirePacket
  pub done : Bool

module _ (ext : Extern) where
  -- The record's contents after the match, before the flag is set.
  unfoldable pub correlated_contents : PendingPlaintext → BufferedWirePacket → GenericMap
  correlated_contents pt pkt =
      enrich_plaintext_for_export ext
        (overlay_correlated_wire_to_plaintext ext pt.contents pkt.generic_map)

  unfoldable pub annotate_packet : PendingPlaintext → BufferedWirePacket → BufferedWirePacket
  annotate_packet pt pkt = record pkt {
    annotated = true;
    annotations = plaintext_annotation_comment ext (correlated_contents pt pkt) pt.id ∷ [];
    packet_id = some pt.id;
  }

  unfoldable pub annotated_plaintext : PendingPlaintext → BufferedWirePacket → PendingPlaintext
  annotated_plaintext pt pkt = record pt {
    contents = put (codes "PcapAnnotated") (bool true) (correlated_contents pt pkt);
  }

  -- A record without a tuple of its own waits while it and the packet are within the window;
  -- `since` is what the clock reads in each call of `time.Since`, in order.
  unfoldable pub must_wait : ℕ → Bool → (ℕ → ℕ) → PendingPlaintext → BufferedWirePacket → Bool
  must_wait window final since pt pkt =
      not final
      && not (plaintext_has_tuple ext pt.original)
      && ltb (since 0) (pt.received_at + window)
      && ltb (since 1) (pkt.received_at + window)

  -- The packet at position `i`, if it is not annotated and need not wait.
  unfoldable pub usable :
      ℕ
      → Bool
      → (ℕ → ℕ)
      → List BufferedWirePacket
      → PendingPlaintext
      → ℕ
      → Option BufferedWirePacket
  usable window final since packets pt i = elim (get_elem? packets i) [
    | none ↦ none
    | some pkt ↦ if pkt.annotated || must_wait window final since pt pkt then none else some pkt
  ]

  unfoldable pub annotate_found :
      List BufferedWirePacket → PendingPlaintext → ℕ → Option BufferedWirePacket → Attempt
  annotate_found packets pt i none = record { pt = pt; packets = packets; done = false }
  annotate_found packets pt i (some pkt) = record {
    pt = annotated_plaintext pt pkt;
    packets = set packets i (annotate_packet pt pkt);
    done = true;
  }

  -- The attempt on the packet at position `i`.
  unfoldable pub annotate_at :
      ℕ → Bool → (ℕ → ℕ) → List BufferedWirePacket → PendingPlaintext → ℕ → Attempt
  annotate_at window final since packets pt i =
      annotate_found packets pt i (usable window final since packets pt i)

  -- The position of the packet to annotate: there is a best one, it is not ambiguous, and it scores
  -- enough.
  unfoldable pub chosen : CaptureFilters → BestMatch → Option ℕ
  chosen filters m = elim m.idx [
    | none ↦ none
    | some i ↦
        if m.ambiguous || ltb_ℤ m.score (pos (min_annotation_score ext m.pt.contents filters))
        then none
        else some i
  ]

  unfoldable pub attempt_on :
      ℕ → Bool → (ℕ → ℕ) → List BufferedWirePacket → PendingPlaintext → Option ℕ → Attempt
  attempt_on window final since packets pt none = record {
    pt = pt;
    packets = packets;
    done = false;
  }
  attempt_on window final since packets pt (some i) = annotate_at window final since packets pt i

  -- `tryAnnotateLocked`.
  unfoldable pub try_annotate :
      ℕ → CaptureFilters → Bool → (ℕ → ℕ) → List BufferedWirePacket → PendingPlaintext → Attempt
  try_annotate window filters final since packets pt =
      let m = best_wire_match ext filters packets pt in
      attempt_on window final since packets m.pt (chosen filters m)
