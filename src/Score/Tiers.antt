-- ===== src/Score/Tiers.antt =====
-- The tiers of the score: how high a match of each kind can reach.
mod Bases
use netobserv_cli.Common.{
  ℕ, ◌+◌, ◌<◌, ◌≤◌, ◌≡◌, refl, sym, subst, ◌∙◌, Bool, true, false, Option, none, some, arith,
  if◌then◌else◌, Bool-cases, inl, inr, if_true, if_false, ◌&&◌, ◌||◌, not, is_some,
}
use netobserv_cli.Common.Int.{ℤ, pos, negsuc}
use netobserv_cli.Text.{Bytes, codes, eq_bytes, is_empty}
use netobserv_cli.Text.Laws.{eq_bytes→eq}
use netobserv_cli.GenericMap.{
  GenericMap, Value, str, float64, uint16, int, int64, null, uint64, bool, slice, object, is_string,
  get,
}
use netobserv_cli.Extern.{Extern}
use netobserv_cli.Endpoints.{
  FlowTuple, flow_tuple_from_map, plaintext_has_tuple, plaintext_pod_endpoint, plaintext_peer_ip,
  tuples_equal, tuples_reverse_equal, wire_packet_has_ip, wire_packet_has_ip_port, wire_egress_from,
  wire_ingress_to,
}
use netobserv_cli.Endpoints.Tuples.{plaintext_has_tuple-flow_tuple}
use netobserv_cli.Filters.{CaptureFilters, active, wire_packet_matches_capture_filters}
use netobserv_cli.Score.Bonus.{time_correlation_bonus-le}
use netobserv_cli.Score.{
  BufferedWirePacket, PendingPlaintext, admissible, direction_bonus, score_strict_tuple_match,
  score_remote_endpoint_match, score_loose_endpoint_match, score_capture_filter_wire_match,
  first_match, base_score, with_bonus, score_plaintext_wire_match,
  apply_wire_payload_score_adjustments, time_correlation_bonus,
}
use netobserv_cli.Score.Tiers.Bases.{
  IsWithin, IsWithin-weaken, rejected, first_match-IsWithin, strict-IsWithin, filter-IsWithin,
  loose-IsWithin, remote-IsWithin,
}

module _ (ext : Extern) where
  -- Without a tuple there is no match by the tuple.
  strict-none :
      (wire pt : GenericMap)
      → plaintext_has_tuple ext pt ≡ false
      → score_strict_tuple_match ext wire pt ≡ negsuc 0
  unfolding score_strict_tuple_match
  strict-none wire pt e =
      by_tuple (flow_tuple_from_map ext pt) (sym (plaintext_has_tuple-flow_tuple ext pt) ∙ e)
    where
      by_tuple :
          (a : Option FlowTuple)
          → is_some a ≡ false
          → (elim a as (λ _. ℤ) [
            | none ↦ negsuc 0
            | some t ↦ elim (flow_tuple_from_map ext wire) as (λ _. ℤ) [
              | none ↦ negsuc 0
              | some u ↦
                  if tuples_equal u t || tuples_reverse_equal u t
                  then pos (
                      100
                      + direction_bonus
                          (get (codes "Direction") pt)
                          (tuples_equal u t)
                          (tuples_reverse_equal u t))
                  else negsuc 0
            ]
          ])
            ≡ negsuc 0
      by_tuple none e = refl
      by_tuple (some t) e = cc

  base-IsWithin-strict :
      (wire pt : GenericMap) (filters : CaptureFilters)
      → plaintext_has_tuple ext pt ≡ true
      → IsWithin 100 105 (base_score ext wire pt filters)
  unfolding base_score
  base-IsWithin-strict wire pt filters e =
      subst (IsWithin 100 105) (sym (if_true _ _ e)) (strict-IsWithin ext wire pt)

  base-IsWithin-other :
      (wire pt : GenericMap) (filters : CaptureFilters)
      → plaintext_has_tuple ext pt ≡ false
      → IsWithin 50 80 (base_score ext wire pt filters)
  unfolding base_score
  base-IsWithin-other wire pt filters e =
      let strict = subst (IsWithin 50 80) (sym (strict-none wire pt e)) (rejected 50 80) in
      let remote =
        IsWithin-weaken 75 80 50 80 _ (omega arith) (omega arith) (remote-IsWithin ext wire pt) in
      let loose =
        IsWithin-weaken 50 55 50 80 _ (omega arith) (omega arith) (loose-IsWithin ext wire pt) in
      let filter =
        IsWithin-weaken 50 52 50 80 _ (omega arith) (omega arith)
          (filter-IsWithin ext wire filters) in
      subst (IsWithin 50 80) (sym (if_false _ _ e)) (
        first_match-IsWithin ext 50 80 _ _ strict (
          first_match-IsWithin ext 50 80 _ _ remote
            (first_match-IsWithin ext 50 80 _ _ loose filter)))

  adjusted-IsWithin :
      (low high : ℕ) (pkt : BufferedWirePacket) (pt : PendingPlaintext) (score : ℕ)
      → low ≤ score
      → score + 25 ≤ high
      → IsWithin low high (apply_wire_payload_score_adjustments ext pkt pt score)
  unfolding apply_wire_payload_score_adjustments IsWithin
  adjusted-IsWithin low high pkt pt score l h = ground arith

  with_bonus-IsWithin :
      (low high : ℕ) (pkt : BufferedWirePacket) (pt : PendingPlaintext) (base : ℤ)
      → IsWithin low high base
      → IsWithin low (high + 35) (with_bonus ext pkt pt base)
  unfolding with_bonus
  with_bonus-IsWithin low high pkt pt (pos base) w =
      let (l, h) : (low ≤ base) × (base ≤ high) = unfold IsWithin in w in
      let bonus = time_correlation_bonus-le pkt pt in
      adjusted-IsWithin low (high + 35) pkt pt (base + time_correlation_bonus pkt pt)
        (omega (arith, l)) (omega (arith, h, bonus))
  with_bonus-IsWithin low high pkt pt (negsuc n) w = rejected low (high + 35)

  -- Every score of a packet and a record that is not a rejection lies in the record's tier: from 100
  -- to 140 if the record has a whole tuple, and from 50 to 115 if it has not.
  pub score_in_tier :
      (pkt : BufferedWirePacket) (pt : PendingPlaintext) (filters : CaptureFilters) (s : ℕ)
      → score_plaintext_wire_match ext pkt pt filters ≡ pos s
      → ((if plaintext_has_tuple ext pt.contents then 100 else 50) ≤ s)
        × (s ≤ (if plaintext_has_tuple ext pt.contents then 140 else 115))
  unfolding score_plaintext_wire_match
  score_in_tier pkt pt filters s e =
      let base = base_score ext pkt.generic_map pt.contents filters in
      elim (Bool-cases (plaintext_has_tuple ext pt.contents)) [
        | inl t ↦
            let w = with_bonus-IsWithin 100 105 pkt pt base (base-IsWithin-strict _ _ filters t) in
            let (l, h) = within 100 140 (admissible ext pkt pt) (with_bonus ext pkt pt base) w e in
            (rw t l, rw t h)
        | inr t ↦
            let w = with_bonus-IsWithin 50 80 pkt pt base (base-IsWithin-other _ _ filters t) in
            let (l, h) = within 50 115 (admissible ext pkt pt) (with_bonus ext pkt pt base) w e in
            (rw t l, rw t h)
      ]
    where
      within :
          (low high : ℕ) (b : Bool) (z : ℤ)
          → IsWithin low high z
          → (if b then z else negsuc 0) ≡ pos s
          → (low ≤ s) × (s ≤ high)
      within low high true z w e' = unfold IsWithin in subst (IsWithin low high) e' w
      within low high false z w e' = cc

  within-bounds :
      (low high : ℕ) (z : ℤ) (n : ℕ) → IsWithin low high z → z ≡ pos n → (low ≤ n) × (n ≤ high)
  within-bounds low high z n w e = unfold IsWithin in subst (IsWithin low high) e w

  -- The time bonus never lets a lower tier outrank a higher one: for a record and any three packets, a
  -- match by the tuple with its time bonus is above a match by the remote endpoint with its, and that
  -- is above a match by the local endpoint alone with its.
  pub time_bonus_keeps_tiers :
      (p q u : BufferedWirePacket) (pt : PendingPlaintext) (strict remote loose : ℕ)
      → score_strict_tuple_match ext p.generic_map pt.contents ≡ pos strict
      → score_remote_endpoint_match ext q.generic_map pt.contents ≡ pos remote
      → score_loose_endpoint_match ext u.generic_map pt.contents ≡ pos loose
      → (remote + time_correlation_bonus q pt < strict + time_correlation_bonus p pt)
        × (loose + time_correlation_bonus u pt < remote + time_correlation_bonus q pt)
  time_bonus_keeps_tiers p q u pt strict remote loose s r l =
      let (strict_low, _) =
        within-bounds 100 105 _ strict (strict-IsWithin ext p.generic_map pt.contents) s in
      let (remote_low, remote_high) =
        within-bounds 75 80 _ remote (remote-IsWithin ext q.generic_map pt.contents) r in
      let (_, loose_high) =
        within-bounds 50 55 _ loose (loose-IsWithin ext u.generic_map pt.contents) l in
      (
        omega (arith, strict_low, remote_high, time_correlation_bonus-le q pt),
        omega (arith, remote_low, loose_high, time_correlation_bonus-le u pt),
      )
