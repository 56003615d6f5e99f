-- ===== src/WireBuffer/Defs.antt =====
-- The state of `wirePacketBuffer`, what it sends out, and the search for the best packet
-- (`bestWireMatchWithAmbiguityLocked`).
use netobserv_cli.Common.{
  ℕ, suc, Bool, true, false, ◌&&◌, ◌||◌, List, [], ◌∷◌, Option, none, some, if◌then◌else◌, not,
  is_some,
}
use netobserv_cli.Common.Int.{ℤ, pos, negsuc, ◌-ℤ◌, ltb_ℤ, leb_ℤ, is_neg}
use netobserv_cli.GenericMap.{GenericMap}
use netobserv_cli.Extern.{Extern}
use netobserv_cli.Endpoints.{
  FlowTuple, flow_tuple_from_map, tuples_equal, tuples_reverse_equal, plaintext_has_tuple,
}
use netobserv_cli.Filters.{CaptureFilters, enrich_plaintext_from_capture_filters}
use netobserv_cli.Score.{
  BufferedWirePacket, PendingPlaintext, score_plaintext_wire_match, score_ambiguity_margin,
}

-- A packet given to the pcapng writer, or a record given to the finalizer; the number is the
-- record's id.
pub data Event : Type 0 where
  wrote : BufferedWirePacket → Event
  exported : ℕ → GenericMap → Event

-- `trace` is what was sent out, the oldest first; a nil writer or finalizer is a false flag.
pub record Buffer : Type 0 where
  pub window : ℕ
  pub has_writer : Bool
  pub has_finalizer : Bool
  pub filters : CaptureFilters
  pub packets : List BufferedWirePacket
  pub pending : List PendingPlaintext
  pub trace : List Event

-- The variables of the search loop; `best_idx` -1 and no connection are `none`.
pub record Search : Type 0 where
  pub best_idx : Option ℕ
  pub best_score : ℤ
  pub second_best : ℤ
  pub connection : Option FlowTuple
  pub multiple_connections : Bool

abbrev pub search_start : Search
search_start = record {
  best_idx = none;
  best_score = negsuc 0;
  second_best = negsuc 0;
  connection = none;
  multiple_connections = false;
}

-- A connection that is neither the known one nor its reverse.
unfoldable pub is_another : Option FlowTuple → FlowTuple → Bool
is_another none t = false
is_another (some c) t = not (tuples_equal c t) && not (tuples_reverse_equal c t)

unfoldable pub note_connection : Option FlowTuple → Search → Search
note_connection none s = s
note_connection (some t) s = record s {
  connection = some t;
  multiple_connections = is_another s.connection t || s.multiple_connections;
}

-- The best and the second best score so far, with the packet at position `i` taken in.
unfoldable pub rank : ℕ → ℤ → Search → Search
rank i score s =
    if ltb_ℤ s.best_score score
    then record s { second_best = s.best_score; best_score = score; best_idx = some i }
    else if ltb_ℤ s.second_best score
    then record s { second_best = score }
    else s

unfoldable pub scores_ambiguous : Search → Bool
unfolding ◌-ℤ◌
scores_ambiguous s =
    is_some s.best_idx
    && not (is_neg s.second_best)
    && leb_ℤ (s.best_score -ℤ s.second_best) (pos score_ambiguity_margin)

-- The record as the search leaves it, and the three results.
pub record BestMatch : Type 0 where
  pub pt : PendingPlaintext
  pub idx : Option ℕ
  pub score : ℤ
  pub ambiguous : Bool

module _ (ext : Extern) where
  -- A packet that scores proves that its connection was present, also when it is annotated.
  unfoldable pub note_packet :
      CaptureFilters → PendingPlaintext → BufferedWirePacket → Search → Search
  note_packet filters pt pkt s =
      if is_neg (score_plaintext_wire_match ext pkt pt filters)
      then s
      else note_connection (flow_tuple_from_map ext pkt.generic_map) s

  unfoldable pub search_round :
      CaptureFilters → PendingPlaintext → ℕ → BufferedWirePacket → Search → Search
  search_round filters pt i pkt s =
      let noted = note_packet filters pt pkt s in
      if pkt.annotated then noted else rank i (score_plaintext_wire_match ext pkt pt filters) noted

  -- The loop, from position `i` on.
  unfoldable pub search_from :
      CaptureFilters → PendingPlaintext → ℕ → List BufferedWirePacket → Search → Search
  search_from filters pt i [] s = s
  search_from filters pt i (pkt ∷ packets) s =
      search_from filters pt (suc i) packets (search_round filters pt i pkt s)

  unfoldable pub prepare_plaintext_for_match : CaptureFilters → PendingPlaintext → PendingPlaintext
  prepare_plaintext_for_match filters pt = record pt {
    contents = enrich_plaintext_from_capture_filters ext pt.contents filters;
  }

  -- The search over all packets, for a prepared record.
  unfoldable pub search_all : CaptureFilters → List BufferedWirePacket → PendingPlaintext → Search
  search_all filters packets pt = search_from filters pt 0 packets search_start

  -- The record after a search: it remembers that several connections were in play.
  unfoldable pub note_ambiguity : Search → PendingPlaintext → PendingPlaintext
  note_ambiguity s pt =
      if not (plaintext_has_tuple ext pt.original) && s.multiple_connections
      then record pt { connection_ambiguous = true }
      else pt

  -- `bestWireMatchWithAmbiguityLocked`.
  unfoldable pub best_wire_match :
      CaptureFilters → List BufferedWirePacket → PendingPlaintext → BestMatch
  best_wire_match filters packets pt =
      let prepared = prepare_plaintext_for_match filters pt in
      let s = search_all filters packets prepared in
      let left = note_ambiguity s prepared in
      record {
        pt = left;
        idx = s.best_idx;
        score = s.best_score;
        ambiguous = scores_ambiguous s || left.connection_ambiguous;
      }
