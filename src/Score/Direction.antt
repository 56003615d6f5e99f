-- ===== src/Score/Direction.antt =====
-- What a packet that is not rejected has in common with the record.
use netobserv_cli.Common.{
  ℕ, ◌+◌, ◌≡◌, ◌≢◌, ◌⊎◌, refl, sym, ◌∙◌, true, false, Option, none, some, arith, if◌then◌else◌,
  Bool-cases, inl, inr, ◌||◌, if_true, if_false,
}
use netobserv_cli.Common.Int.{ℤ, pos, negsuc}
use netobserv_cli.Text.{Bytes, codes, eq_bytes}
use netobserv_cli.Text.Laws.{eq_bytes→eq}
use netobserv_cli.GenericMap.{
  GenericMap, Value, str, float64, uint16, int, int64, null, uint64, bool, slice, object, is_string,
  get,
}
use netobserv_cli.Extern.{Extern}
use netobserv_cli.Endpoints.{
  FlowTuple, flow_tuple_from_map, plaintext_has_tuple, plaintext_pod_endpoint, tuples_equal,
  tuples_reverse_equal, wire_egress_from, wire_ingress_to,
}
use netobserv_cli.Endpoints.Tuples.{reversed, tuples_equal_iff, tuples_reverse_equal_iff}
use netobserv_cli.Filters.{CaptureFilters}
use netobserv_cli.Plaintext.Wire.{wire_tcp_payload_info}
use netobserv_cli.Score.{
  BufferedWirePacket, PendingPlaintext, direction_bonus, score_strict_tuple_match, base_score,
  with_bonus, score_plaintext_wire_match, admissible, times_correlated,
  plaintext_wire_pod_compatible, plaintext_endpoints_compatible, direction_allows,
  apply_wire_payload_score_adjustments,
}

module _ (ext : Extern) where
  -- The packet belongs to the record's connection, in one of its two directions.
  pub record Connected (pkt : BufferedWirePacket) (m : GenericMap) : Type 0 where
    pub record_tuple : FlowTuple
    pub packet_tuple : FlowTuple
    pub of_record : flow_tuple_from_map ext m ≡ some record_tuple
    pub of_packet : flow_tuple_from_map ext pkt.generic_map ≡ some packet_tuple
    pub same : (packet_tuple ≡ record_tuple) ⊎ (packet_tuple ≡ reversed record_tuple)

  -- What a packet that is not rejected satisfies.
  pub record Fits (pkt : BufferedWirePacket) (pt : PendingPlaintext) : Type 0 where
    pub in_time : times_correlated pkt pt ≡ true
    pub pod : plaintext_wire_pod_compatible pkt pt.contents ≡ true
    pub endpoints : plaintext_endpoints_compatible ext pkt.generic_map pt.contents ≡ true
    pub written :
        (ip : Bytes) (port : ℕ)
        → plaintext_pod_endpoint ext pt.contents ≡ some (ip, port)
        → is_string (codes "write") (get (codes "Direction") pt.contents) ≡ true
        → wire_egress_from ext pkt.generic_map ip port ≡ true
    pub read :
        (ip : Bytes) (port : ℕ)
        → plaintext_pod_endpoint ext pt.contents ≡ some (ip, port)
        → is_string (codes "write") (get (codes "Direction") pt.contents) ≡ false
        → is_string (codes "read") (get (codes "Direction") pt.contents) ≡ true
        → wire_ingress_to ext pkt.generic_map ip port ≡ true
    pub payload : wire_tcp_payload_info ext pkt.frame ≢ some 0
    pub connection : plaintext_has_tuple ext pt.contents ≡ true → Connected pkt pt.contents

  read_not_write :
      (dir : Value) → is_string (codes "read") dir ≡ true → is_string (codes "write") dir ≡ false
  unfolding is_string
  read_not_write (str d) r = rw (eq_bytes→eq d (codes "read") r) (unfold eq_bytes in refl)
  read_not_write null r = refl
  read_not_write (float64 v) r = refl
  read_not_write (int v) r = refl
  read_not_write (int64 v) r = refl
  read_not_write (uint16 v) r = refl
  read_not_write (uint64 v) r = refl
  read_not_write (bool v) r = refl
  read_not_write (slice v) r = refl
  read_not_write (object v) r = refl

  direction-written :
      (wire m : GenericMap) (ip : Bytes) (port : ℕ)
      → direction_allows ext wire m ≡ true
      → plaintext_pod_endpoint ext m ≡ some (ip, port)
      → is_string (codes "write") (get (codes "Direction") m) ≡ true
      → wire_egress_from ext wire ip port ≡ true
  unfolding direction_allows
  direction-written wire m ip port a e w = ground arith

  direction-read :
      (wire m : GenericMap) (ip : Bytes) (port : ℕ)
      → direction_allows ext wire m ≡ true
      → plaintext_pod_endpoint ext m ≡ some (ip, port)
      → is_string (codes "write") (get (codes "Direction") m) ≡ false
      → is_string (codes "read") (get (codes "Direction") m) ≡ true
      → wire_ingress_to ext wire ip port ≡ true
  unfolding direction_allows
  direction-read wire m ip port a e w r = ground arith

  not_empty :
      (pkt : BufferedWirePacket) (pt : PendingPlaintext) (score s : ℕ)
      → apply_wire_payload_score_adjustments ext pkt pt score ≡ pos s
      → wire_tcp_payload_info ext pkt.frame ≢ some 0
  unfolding apply_wire_payload_score_adjustments
  not_empty pkt pt score s e h = ground arith

  strict-Connected :
      (pkt : BufferedWirePacket) (m : GenericMap) (s : ℕ)
      → score_strict_tuple_match ext pkt.generic_map m ≡ pos s
      → Connected pkt m
  unfolding score_strict_tuple_match
  strict-Connected pkt m s =
      by_tuples (flow_tuple_from_map ext m) (flow_tuple_from_map ext pkt.generic_map) refl refl
    where
      dir : Value
      dir = get (codes "Direction") m

      by_tuples :
          (a b : Option FlowTuple)
          → flow_tuple_from_map ext m ≡ a
          → flow_tuple_from_map ext pkt.generic_map ≡ b
          → (elim a as (λ _. ℤ) [
            | none ↦ negsuc 0
            | some t ↦ elim b as (λ _. ℤ) [
              | none ↦ negsuc 0
              | some u ↦
                  if tuples_equal u t || tuples_reverse_equal u t
                  then pos (100 + direction_bonus dir (tuples_equal u t) (tuples_reverse_equal u t))
                  else negsuc 0
            ]
          ])
            ≡ pos s
          → Connected pkt m
      by_tuples none b ea eb e = cc
      by_tuples (some t) none ea eb e = cc
      by_tuples (some t) (some u) ea eb e = record {
        record_tuple = t;
        packet_tuple = u;
        of_record = ea;
        of_packet = eb;
        same = elim (Bool-cases (tuples_equal u t)) [
          | inl same ↦ inl ((tuples_equal_iff u t).0 same)
          | inr other ↦ inr ((tuples_reverse_equal_iff u t).0 (ground arith))
        ];
      }

  base-Connected :
      (pkt : BufferedWirePacket) (m : GenericMap) (filters : CaptureFilters) (s : ℕ)
      → base_score ext pkt.generic_map m filters ≡ pos s
      → plaintext_has_tuple ext m ≡ true
      → Connected pkt m
  unfolding base_score
  base-Connected pkt m filters s e t = strict-Connected pkt m s (sym (if_true _ _ t) ∙ e)

  with_bonus-base :
      (pkt : BufferedWirePacket) (pt : PendingPlaintext) (base : ℤ) (s : ℕ)
      → with_bonus ext pkt pt base ≡ pos s
      → (n : ℕ) × (base ≡ pos n) × (wire_tcp_payload_info ext pkt.frame ≢ some 0)
  unfolding with_bonus
  with_bonus-base pkt pt (pos n) s e = (n, refl, not_empty pkt pt _ s e)
  with_bonus-base pkt pt (negsuc n) s e = cc

  -- A packet that is not rejected fits: the times are near, the pods and the endpoints do not
  -- contradict each other, what was written left the local endpoint and what was read reached it, the
  -- packet does not have an empty TCP payload, and if the record has a whole tuple, the packet is of
  -- its connection.
  pub score-Fits :
      (pkt : BufferedWirePacket) (pt : PendingPlaintext) (filters : CaptureFilters) (s : ℕ)
      → score_plaintext_wire_match ext pkt pt filters ≡ pos s
      → Fits pkt pt
  unfolding score_plaintext_wire_match
  score-Fits pkt pt filters s e = elim (Bool-cases (admissible ext pkt pt)) [
    | inl a ↦
        let (n, base, tcp) = with_bonus-base pkt pt _ s (sym (if_true _ _ a) ∙ e) in
        let (in_time, pod, endpoints, direction) = parts a in
        record {
          in_time = in_time;
          pod = pod;
          endpoints = endpoints;
          written = λ ip port found w. direction-written _ _ ip port direction found w;
          read = λ ip port found w r. direction-read _ _ ip port direction found w r;
          payload = tcp;
          connection = base-Connected pkt pt.contents filters n base;
        }
    | inr a ↦ absurd (apart (sym (if_false _ _ a) ∙ e))
  ]
    where
      apart : negsuc 0 ≢ pos s
      apart e' = cc

      parts :
          admissible ext pkt pt ≡ true
          → (times_correlated pkt pt ≡ true)
            × (plaintext_wire_pod_compatible pkt pt.contents ≡ true)
            × (plaintext_endpoints_compatible ext pkt.generic_map pt.contents ≡ true)
            × (direction_allows ext pkt.generic_map pt.contents ≡ true)
      parts a = unfold admissible in ground arith

  -- A record with a whole tuple is matched by packets of its connection alone, in either direction: the
  -- packet has a tuple too, and it is the record's or its reverse.
  pub score-Connected :
      (pkt : BufferedWirePacket) (pt : PendingPlaintext) (filters : CaptureFilters) (s : ℕ)
      → score_plaintext_wire_match ext pkt pt filters ≡ pos s
      → plaintext_has_tuple ext pt.contents ≡ true
      → Connected pkt pt.contents
  score-Connected pkt pt filters s e t = (score-Fits pkt pt filters s e).connection t

  -- A record that was written is matched by packets that leave its local endpoint alone.
  pub score_written :
      (pkt : BufferedWirePacket) (pt : PendingPlaintext) (filters : CaptureFilters) (s : ℕ)
      (ip : Bytes) (port : ℕ)
      → score_plaintext_wire_match ext pkt pt filters ≡ pos s
      → plaintext_pod_endpoint ext pt.contents ≡ some (ip, port)
      → is_string (codes "write") (get (codes "Direction") pt.contents) ≡ true
      → wire_egress_from ext pkt.generic_map ip port ≡ true
  score_written pkt pt filters s ip port e = (score-Fits pkt pt filters s e).written ip port

  -- A record that was read is matched by packets that reach its local endpoint alone.
  pub score_read :
      (pkt : BufferedWirePacket) (pt : PendingPlaintext) (filters : CaptureFilters) (s : ℕ)
      (ip : Bytes) (port : ℕ)
      → score_plaintext_wire_match ext pkt pt filters ≡ pos s
      → plaintext_pod_endpoint ext pt.contents ≡ some (ip, port)
      → is_string (codes "read") (get (codes "Direction") pt.contents) ≡ true
      → wire_ingress_to ext pkt.generic_map ip port ≡ true
  score_read pkt pt filters s ip port e found r =
      (score-Fits pkt pt filters s e).read ip port found (read_not_write _ r) r
