-- ===== src/Display/Flows/Indexed.antt =====
-- The indices that the flows of the memory have, and its invariant.
use netobserv_cli.Common.{
  ℕ, suc, ◌≡◌, ◌<◌, refl, sym, ap, subst, Bool, true, false, Option, none, some, arith, if_false,
  is_some, ◌∙◌,
}
use netobserv_cli.Common.Int.{ℤ, pos}
use netobserv_cli.Text.{Bytes, codes, eq_bytes}
use netobserv_cli.GenericMap.{GenericMap, Float, int, lookup}
use netobserv_cli.GenericMap.Laws.{lookup-put}
use netobserv_cli.Session.{is_plaintext_record}
use netobserv_cli.Display.Order.{
  Capture, flow_key, to_float64, float_of, packet_flow_time_ms, key_at, start_or_time,
  packet_flow_index,
}
use netobserv_cli.Display.Flows.{
  Memory, is_wire_packet_record, indexed, default_keep_count, default_wire_packet_keep_count,
  default_plaintext_keep_count, empty_memory,
}
use netobserv_cli.Display.Flows.Buffers.{IsTimed, IsBuffer, IsBuffer-nil, IsBuffer-weaken}

-- The map has an index that was given already.
abbrev pub HasIndexBelow : ℕ → GenericMap → Type 0
HasIndexBelow n m = (i : ℕ) × (lookup (codes "Index") m ≡ some (int (pos i))) × i < n

abbrev pub IsWireBelow : ℕ → GenericMap → Type 0
IsWireBelow n m =
    HasIndexBelow n m × (is_plaintext_record m ≡ false) × (is_wire_packet_record m ≡ true)

abbrev pub IsPlaintextBelow : ℕ → GenericMap → Type 0
IsPlaintextBelow n m = HasIndexBelow n m × (is_plaintext_record m ≡ true)

-- Each buffer is in order and within its limit, and holds the records of its kind.
pub record IsWellFormed (s : Memory) : Type 0 where
  pub flows : IsBuffer s.capture default_keep_count (HasIndexBelow s.flow_index) s.last_flows
  pub wires :
      IsBuffer s.capture default_wire_packet_keep_count
        (IsWireBelow s.flow_index)
        s.last_wire_packets
  pub plaintexts :
      IsBuffer s.capture default_plaintext_keep_count
        (IsPlaintextBelow s.flow_index)
        s.last_plaintext_flows

pub empty_memory-IsWellFormed : (c : Capture) (tls : Bool) → IsWellFormed (empty_memory c tls)
empty_memory-IsWellFormed c tls = record {
  flows = IsBuffer-nil c _ _;
  wires = IsBuffer-nil c _ _;
  plaintexts = IsBuffer-nil c _ _;
}

-- A further index is given.
pub next_index-IsWellFormed :
    (s : Memory) → IsWellFormed s → IsWellFormed (record s { flow_index = suc s.flow_index })
next_index-IsWellFormed s h = record {
  flows = IsBuffer-weaken s.capture _ _ _ (λ m p. later m p) s.last_flows h.flows;
  wires =
      IsBuffer-weaken s.capture _ _ _ (λ m p. (later m p.0, p.1, p.2)) s.last_wire_packets h.wires;
  plaintexts =
      IsBuffer-weaken s.capture _ _ _ (λ m p. (later m p.0, p.1)) s.last_plaintext_flows
        h.plaintexts;
}
  where
    later : (m : GenericMap) → HasIndexBelow s.flow_index m → HasIndexBelow (suc s.flow_index) m
    later m p = (p.0, p.1, omega (arith, p.2))

-- The times of a flow do not depend on its index.
indexed-lookup :
    (s : Memory) (m : GenericMap) (key : Bytes)
    → eq_bytes (codes "Index") key ≡ false
    → lookup key (indexed s m) ≡ lookup key m
unfolding indexed
indexed-lookup s m key e = lookup-put (codes "Index") key _ m ∙ if_false _ _ e

pub indexed-index :
    (s : Memory) (m : GenericMap)
    → lookup (codes "Index") (indexed s m) ≡ some (int (pos s.flow_index))
unfolding indexed eq_bytes
indexed-index s m = lookup-put (codes "Index") (codes "Index") (int (pos s.flow_index)) m

key_at-is_some : (i j : ℤ) (t : Option Float) → is_some (key_at i t) ≡ is_some (key_at j t)
unfolding key_at
key_at-is_some i j none = refl
key_at-is_some i j (some t) = refl

pub indexed-IsTimed :
    (c : Capture) (s : Memory) (m : GenericMap) → IsTimed c m → IsTimed c (indexed s m)
unfolding flow_key to_float64 packet_flow_time_ms eq_bytes
indexed-IsTimed Capture.flows s m h =
    subst (λ v. is_some (key_at (pos 0) (float_of v)) ≡ true)
      (sym (indexed-lookup s m (codes "TimeFlowEndMs") refl)) h
indexed-IsTimed Capture.metrics s m h =
    subst (λ v. is_some (key_at (pos 0) (float_of v)) ≡ true)
      (sym (indexed-lookup s m (codes "Time") refl)) h
indexed-IsTimed Capture.packets s m h =
    key_at-is_some (packet_flow_index (indexed s m)) (packet_flow_index m) _
    ∙ ap (λ t. is_some (key_at (packet_flow_index m) t)) same_time
    ∙ h
  where
    same_time : packet_flow_time_ms (indexed s m) ≡ packet_flow_time_ms m
    same_time =
        ap (λ v. start_or_time (float_of v) (float_of (lookup (codes "Time") (indexed s m))))
          (indexed-lookup s m (codes "TimeFlowStartMs") refl)
        ∙ ap (λ v. start_or_time (float_of (lookup (codes "TimeFlowStartMs") m)) (float_of v))
            (indexed-lookup s m (codes "Time") refl)
