-- ===== src/Score/Tiers/Bases.antt =====
-- How high the tiers of the score start: each kind of match, before the bonuses.
use netobserv_cli.Common.{
  ℕ, ◌+◌, ◌≤◌, ◌≡◌, refl, Bool, true, false, Option, none, some, arith, if◌then◌else◌, ◌&&◌, ◌||◌,
  not,
}
use netobserv_cli.Common.Int.{ℤ, pos, negsuc}
use netobserv_cli.Text.{Bytes, codes, eq_bytes, is_empty}
use netobserv_cli.Text.Laws.{eq_bytes→eq}
use netobserv_cli.GenericMap.{
  GenericMap, Value, str, float64, uint16, int, int64, null, uint64, bool, slice, object, is_string,
  get,
}
use netobserv_cli.Extern.{Extern}
use netobserv_cli.Endpoints.{
  FlowTuple, flow_tuple_from_map, plaintext_pod_endpoint, plaintext_peer_ip, tuples_equal,
  tuples_reverse_equal, wire_packet_has_ip, wire_packet_has_ip_port, wire_egress_from,
  wire_ingress_to,
}
use netobserv_cli.Filters.{CaptureFilters, active, wire_packet_matches_capture_filters}
use netobserv_cli.Score.{
  direction_bonus, score_strict_tuple_match, score_remote_endpoint_match,
  score_loose_endpoint_match, score_capture_filter_wire_match, first_match,
}

-- A score that does not reject lies between the two.
unfoldable pub IsWithin : ℕ → ℕ → ℤ → Type 0
IsWithin low high (pos s) = (low ≤ s) × (s ≤ high)
IsWithin low high (negsuc n) = Unit

not_both : (s : Bytes) → eq_bytes s (codes "write") ≡ true → eq_bytes s (codes "read") ≡ false
not_both s e = rw (eq_bytes→eq s (codes "write") e) (unfold eq_bytes in refl)

direction_bonus-le : (dir : Value) (w r : Bool) → direction_bonus dir w r ≤ 5
unfolding direction_bonus is_string
direction_bonus-le (str s) w r = ground (arith, not_both s)
direction_bonus-le null w r = ground arith
direction_bonus-le (float64 v) w r = ground arith
direction_bonus-le (int v) w r = ground arith
direction_bonus-le (int64 v) w r = ground arith
direction_bonus-le (uint16 v) w r = ground arith
direction_bonus-le (uint64 v) w r = ground arith
direction_bonus-le (bool v) w r = ground arith
direction_bonus-le (slice v) w r = ground arith
direction_bonus-le (object v) w r = ground arith

pub rejected : (low high : ℕ) → IsWithin low high (negsuc 0)
unfolding IsWithin
rejected low high = tt

IsWithin-if :
    (low high : ℕ) (b : Bool) (n : ℕ)
    → low ≤ n
    → n ≤ high
    → IsWithin low high (if b then pos n else negsuc 0)
unfolding IsWithin
IsWithin-if low high true n l h = (l, h)
IsWithin-if low high false n l h = tt

IsWithin-unless :
    (low high : ℕ) (b : Bool) (n : ℕ)
    → low ≤ n
    → n ≤ high
    → IsWithin low high (if b then negsuc 0 else pos n)
unfolding IsWithin
IsWithin-unless low high true n l h = tt
IsWithin-unless low high false n l h = (l, h)

pub IsWithin-weaken :
    (low high low' high' : ℕ) (z : ℤ)
    → low' ≤ low
    → high ≤ high'
    → IsWithin low high z
    → IsWithin low' high' z
unfolding IsWithin
IsWithin-weaken low high low' high' (pos s) l h w = ground arith
IsWithin-weaken low high low' high' (negsuc s) l h w = tt

module _ (ext : Extern) where
  pub first_match-IsWithin :
      (low high : ℕ) (y z : ℤ)
      → IsWithin low high y
      → IsWithin low high z
      → IsWithin low high (first_match ext y z)
  unfolding IsWithin first_match
  first_match-IsWithin low high (pos s) z h k = h
  first_match-IsWithin low high (negsuc s) z h k = k

  pub strict-IsWithin :
      (wire pt : GenericMap) → IsWithin 100 105 (score_strict_tuple_match ext wire pt)
  unfolding score_strict_tuple_match
  strict-IsWithin wire pt = by_tuples (flow_tuple_from_map ext pt) (flow_tuple_from_map ext wire)
    where
      dir : Value
      dir = get (codes "Direction") pt

      by_tuples :
          (a b : Option FlowTuple)
          → IsWithin 100 105 (elim a as (λ _. ℤ) [
            | none ↦ negsuc 0
            | some t ↦ elim b as (λ _. ℤ) [
              | none ↦ negsuc 0
              | some u ↦
                  if tuples_equal u t || tuples_reverse_equal u t
                  then pos (100 + direction_bonus dir (tuples_equal u t) (tuples_reverse_equal u t))
                  else negsuc 0
            ]
          ])
      by_tuples none b = rejected 100 105
      by_tuples (some t) none = rejected 100 105
      by_tuples (some t) (some u) =
          let bonus = direction_bonus dir (tuples_equal u t) (tuples_reverse_equal u t) in
          let le = direction_bonus-le dir (tuples_equal u t) (tuples_reverse_equal u t) in
          IsWithin-if 100 105 (tuples_equal u t || tuples_reverse_equal u t) (100 + bonus)
            (omega arith) (omega (arith, le))

  pub filter-IsWithin :
      (wire : GenericMap) (filters : CaptureFilters)
      → IsWithin 50 52 (score_capture_filter_wire_match ext wire filters)
  unfolding score_capture_filter_wire_match
  filter-IsWithin wire filters =
      IsWithin-unless 50 52
        (not (active filters) || not (wire_packet_matches_capture_filters ext wire filters))
        (50
          + (if is_empty filters.ports then 0 else 1)
          + (if is_empty filters.peer_ips && is_empty filters.peer_nets then 0 else 1))
        (ground arith) (ground arith)

  pub loose-IsWithin :
      (wire pt : GenericMap) → IsWithin 50 55 (score_loose_endpoint_match ext wire pt)
  unfolding score_loose_endpoint_match
  loose-IsWithin wire pt = by_endpoint (plaintext_pod_endpoint ext pt)
    where
      dir : Value
      dir = get (codes "Direction") pt

      by_endpoint :
          (e : Option (Bytes × ℕ))
          → IsWithin 50 55 (elim e as (λ _. ℤ) [
            | none ↦ negsuc 0
            | some (ip, port) ↦
                if wire_packet_has_ip_port ext wire ip port
                then pos (
                    50
                    + direction_bonus dir
                        (wire_egress_from ext wire ip port)
                        (wire_ingress_to ext wire ip port))
                else negsuc 0
          ])
      by_endpoint none = rejected 50 55
      by_endpoint (some (ip, port)) =
          let le =
            direction_bonus-le dir (wire_egress_from ext wire ip port)
              (wire_ingress_to ext wire ip port) in
          IsWithin-if 50 55 (wire_packet_has_ip_port ext wire ip port) _ (omega arith)
            (omega (arith, le))

  pub remote-IsWithin :
      (wire pt : GenericMap) → IsWithin 75 80 (score_remote_endpoint_match ext wire pt)
  unfolding score_remote_endpoint_match
  remote-IsWithin wire pt = by_endpoint (plaintext_pod_endpoint ext pt) (plaintext_peer_ip ext pt)
    where
      dir : Value
      dir = get (codes "Direction") pt

      by_endpoint :
          (e : Option (Bytes × ℕ)) (p : Option Bytes)
          → IsWithin 75 80 (elim e as (λ _. ℤ) [
            | none ↦ negsuc 0
            | some (ip, port) ↦ elim p as (λ _. ℤ) [
              | none ↦ negsuc 0
              | some peer ↦
                  if eq_bytes peer ip
                    || not (wire_packet_has_ip_port ext wire ip port)
                    || not (wire_packet_has_ip ext wire peer)
                  then negsuc 0
                  else pos (
                      75
                      + direction_bonus dir
                          (wire_egress_from ext wire ip port && wire_packet_has_ip ext wire peer)
                          (wire_ingress_to ext wire ip port && wire_packet_has_ip ext wire peer))
            ]
          ])
      by_endpoint none p = rejected 75 80
      by_endpoint (some (ip, port)) none = rejected 75 80
      by_endpoint (some (ip, port)) (some peer) =
          let has_peer = wire_packet_has_ip ext wire peer in
          let le =
            direction_bonus-le dir (wire_egress_from ext wire ip port && has_peer)
              (wire_ingress_to ext wire ip port && has_peer) in
          IsWithin-unless 75 80
            (eq_bytes peer ip || not (wire_packet_has_ip_port ext wire ip port) || not has_peer) _
            (omega arith) (omega (arith, le))
