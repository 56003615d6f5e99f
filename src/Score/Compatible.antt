-- ===== src/Score/Compatible.antt =====
-- A packet that is matched agrees with the record: in its times, its endpoints and its payload.
use netobserv_cli.Common.{
  ℕ, ◌+◌, ◌≤◌, ◌<◌, ◌≡◌, ◌≢◌, refl, ap, ◌∙◌, Bool, true, false, not, ◌++◌, Option, none, some,
  arith, ltb, leb, if◌then◌else◌, ◌==◌, ◌&&◌, subst,
}
use netobserv_cli.Common.Int.{pos, -ℤ_parts}
use netobserv_cli.Text.{Bytes, codes, eq_bytes}
use netobserv_cli.Text.Laws.{eq_bytes→eq}
use netobserv_cli.GenericMap.{GenericMap, get, is_string}
use netobserv_cli.Extern.{Extern}
use netobserv_cli.Endpoints.{valid_ip_string, map_port_from_generic}
use netobserv_cli.Filters.{CaptureFilters, ip_or_empty}
use netobserv_cli.Plaintext.Annotation.{Time}
use netobserv_cli.Plaintext.Wire.{wire_tcp_payload_info}
use netobserv_cli.Score.{
  BufferedWirePacket, PendingPlaintext, score_plaintext_wire_match, times_correlated,
  plaintext_correlation_window, event_times_correlated, receive_time_delta, side_compatible,
  plaintext_endpoints_compatible,
}
use netobserv_cli.Score.Direction.{score-Fits}

-- The times of a record and a packet: the record is at most 2 seconds early and 5 seconds late where
-- both have a time of their own, and else at most 30 seconds lie between their receipts.
abbrev pub AreClose : Time → Time → ℕ → ℕ → Type 0
AreClose (some event) (some packet) got_record got_packet =
    (packet ≤ event + 2_000_000_000) × (event ≤ packet + 5_000_000_000)
AreClose _ _ got_record got_packet =
    (got_packet ≤ got_record + 30_000_000_000) × (got_record ≤ got_packet + 30_000_000_000)

event_times-close :
    (event packet : ℕ)
    → event_times_correlated event packet ≡ true
    → (packet ≤ event + 2_000_000_000) × (event ≤ packet + 5_000_000_000)
unfolding event_times_correlated
event_times-close event packet e = ground (arith, e, -ℤ_parts (pos event) (pos packet))

receipts-close :
    (pkt : BufferedWirePacket) (pt : PendingPlaintext)
    → receive_time_delta pkt pt ≤ 30_000_000_000
    → (pkt.received_at ≤ pt.received_at + 30_000_000_000)
      × (pt.received_at ≤ pkt.received_at + 30_000_000_000)
unfolding receive_time_delta
receipts-close pkt pt e = ground (arith, e)

times_correlated-AreClose :
    (pkt : BufferedWirePacket) (pt : PendingPlaintext)
    → times_correlated pkt pt ≡ true
    → AreClose pt.event_time pkt.packet_time pt.received_at pkt.received_at
unfolding times_correlated
times_correlated-AreClose pkt pt e = by_times pkt.packet_time pt.event_time e
  where
    by_times :
        (packet event : Time)
        → elim packet as (λ _. Bool) [
          | none ↦ leb (receive_time_delta pkt pt) plaintext_correlation_window
          | some p ↦ elim event as (λ _. Bool) [
            | none ↦ leb (receive_time_delta pkt pt) plaintext_correlation_window
            | some q ↦ event_times_correlated q p
          ]
        ]
          ≡ true
        → AreClose event packet pt.received_at pkt.received_at
    by_times (some p) (some q) h = event_times-close q p h
    by_times none none h = receipts-close pkt pt (ground (arith, h))
    by_times none (some q) h = receipts-close pkt pt (ground (arith, h))
    by_times (some p) none h = receipts-close pkt pt (ground (arith, h))

-- The names of the two sides.
abbrev pub side_name : Bool → Bytes
side_name true = codes "Src"
side_name false = codes "Dst"

module _ (ext : Extern) where
  both_hold : (x y : Bool) → (x && y) ≡ true → (x ≡ true) × (y ≡ true)
  both_hold true y h = (refl, h)
  both_hold false y h = absurd (cc h)

  same_port :
      (w : Option ℕ) (port : ℕ)
      → 0 < port
      → (if ltb 0 port
          then elim w as (λ _. Bool) [ none ↦ false | some wire_port ↦ wire_port == port ]
          else true)
        ≡ true
      → w ≡ some port
  same_port none port n h = ground (arith, n, h)
  same_port (some q) port n h = ap some (ground (arith, n, h))

  side_compatible-agrees :
      (side wire_side : Bytes) (wire m : GenericMap) (ip : Bytes) (port : ℕ)
      → side_compatible ext side wire_side wire m ≡ true
      → valid_ip_string ext (get (side ++ codes "Addr") m) ≡ some ip
      → map_port_from_generic m (side ++ codes "Port") ≡ some port
      → 0 < port
      → (ip_or_empty ext (get (wire_side ++ codes "Addr") wire) ≡ ip)
        × (map_port_from_generic wire (wire_side ++ codes "Port") ≡ some port)
  unfolding side_compatible
  side_compatible-agrees side wire_side wire m ip port c a p n =
      by_record (valid_ip_string ext (get (side ++ codes "Addr") m))
        (map_port_from_generic m (side ++ codes "Port")) c a p
    where
      by_record :
          (v : Option Bytes) (q : Option ℕ)
          → (elim v as (λ _. Bool) [
            | none ↦ true
            | some i ↦
                eq_bytes (ip_or_empty ext (get (wire_side ++ codes "Addr") wire)) i
                && elim q as (λ _. Bool) [
                  | none ↦ true
                  | some port ↦
                      if ltb 0 port
                      then elim (map_port_from_generic wire (wire_side ++ codes "Port"))
                          as (λ _. Bool) [ none ↦ false | some wire_port ↦ wire_port == port ]
                      else true
                ]
          ])
            ≡ true
          → v ≡ some ip
          → q ≡ some port
          → (ip_or_empty ext (get (wire_side ++ codes "Addr") wire) ≡ ip)
            × (map_port_from_generic wire (wire_side ++ codes "Port") ≡ some port)
      by_record none q c a p = absurd (cc a)
      by_record (some i) none c a p = absurd (cc p)
      by_record (some i) (some r) c a p =
          let same_i : i ≡ ip = cc a in
          let same_r : r ≡ port = cc p in
          let h = both_hold _ _ c in
          (
            eq_bytes→eq _ i h.0 ∙ same_i,
            same_port (map_port_from_generic wire (wire_side ++ codes "Port")) r
                  (omega (arith, n, same_r)) h.1
                ∙ ap some same_r,
          )

  endpoints-agree :
      (src reading : Bool) (wire m : GenericMap) (ip : Bytes) (port : ℕ)
      → plaintext_endpoints_compatible ext wire m ≡ true
      → is_string (codes "read") (get (codes "Direction") m) ≡ reading
      → valid_ip_string ext (get (side_name src ++ codes "Addr") m) ≡ some ip
      → map_port_from_generic m (side_name src ++ codes "Port") ≡ some port
      → 0 < port
      → let wire_side = side_name (if reading then not src else src) in
        (ip_or_empty ext (get (wire_side ++ codes "Addr") wire) ≡ ip)
        × (map_port_from_generic wire (wire_side ++ codes "Port") ≡ some port)
  unfolding plaintext_endpoints_compatible
  endpoints-agree src reading wire m ip port c d a p n =
      by_side src reading
        (subst
          (λ r.
            (side_compatible ext (codes "Src") (if r then codes "Dst" else codes "Src") wire m
              && side_compatible ext (codes "Dst") (if r then codes "Src" else codes "Dst") wire m)
            ≡ true)
          d c)
        a p
    where
      by_side :
          (src reading : Bool)
          → (side_compatible ext (codes "Src") (if reading then codes "Dst" else codes "Src") wire m
              && side_compatible ext
                  (codes "Dst")
                  (if reading then codes "Src" else codes "Dst")
                  wire
                  m)
            ≡ true
          → valid_ip_string ext (get (side_name src ++ codes "Addr") m) ≡ some ip
          → map_port_from_generic m (side_name src ++ codes "Port") ≡ some port
          → let wire_side = side_name (if reading then not src else src) in
            (ip_or_empty ext (get (wire_side ++ codes "Addr") wire) ≡ ip)
            × (map_port_from_generic wire (wire_side ++ codes "Port") ≡ some port)
      by_side true true c a p =
          side_compatible-agrees (codes "Src") (codes "Dst") wire m ip port (both_hold _ _ c).0 a p
            n
      by_side true false c a p =
          side_compatible-agrees (codes "Src") (codes "Src") wire m ip port (both_hold _ _ c).0 a p
            n
      by_side false true c a p =
          side_compatible-agrees (codes "Dst") (codes "Src") wire m ip port (both_hold _ _ c).1 a p
            n
      by_side false false c a p =
          side_compatible-agrees (codes "Dst") (codes "Dst") wire m ip port (both_hold _ _ c).1 a p
            n

  -- A packet that is matched to a record was sent or received close to the record's time, has the
  -- endpoint of the record on the side that this stands for, which is the other one for a record
  -- that was read, and does not have an empty TCP payload. The endpoint is one whose address is
  -- valid and whose port is known and above zero.
  pub score_compatible :
      (pkt : BufferedWirePacket) (pt : PendingPlaintext) (filters : CaptureFilters) (s : ℕ)
      (src reading : Bool) (ip : Bytes) (port : ℕ)
      → score_plaintext_wire_match ext pkt pt filters ≡ pos s
      → is_string (codes "read") (get (codes "Direction") pt.contents) ≡ reading
      → valid_ip_string ext (get (side_name src ++ codes "Addr") pt.contents) ≡ some ip
      → map_port_from_generic pt.contents (side_name src ++ codes "Port") ≡ some port
      → 0 < port
      → let wire_side = side_name (if reading then not src else src) in
        AreClose pt.event_time pkt.packet_time pt.received_at pkt.received_at
        × (ip_or_empty ext (get (wire_side ++ codes "Addr") pkt.generic_map) ≡ ip)
        × (map_port_from_generic pkt.generic_map (wire_side ++ codes "Port") ≡ some port)
        × (wire_tcp_payload_info ext pkt.frame ≢ some 0)
  score_compatible pkt pt filters s src reading ip port e d a p n =
      let fits = score-Fits ext pkt pt filters s e in
      let agree =
        endpoints-agree src reading pkt.generic_map pt.contents ip port fits.endpoints d a p n in
      (times_correlated-AreClose pkt pt fits.in_time, agree.0, agree.1, fits.payload)
