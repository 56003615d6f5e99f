-- ===== src/Display/Flows/Invariant.antt =====
-- What an operation of the memory keeps: the bounds, order, kinds and indices of its buffers.
use netobserv_cli.Common.{
  suc, ◌≡◌, refl, sym, ap, subst, ◌&&◌, List, Option, some, arith, if_true, if_false, inl, inr,
  Bool-cases, ◌∙◌,
}
use netobserv_cli.GenericMap.{GenericMap}
use netobserv_cli.Session.{is_plaintext_record}
use netobserv_cli.Display.Sorting.{Less, SortLaws}
use netobserv_cli.Display.Flows.{
  Memory, is_packets, is_wire_packet_record, append_to_time_sorted_buffer, append_by_kind,
  append_indexed, append_flow, indexed, set_flows, set_wire_packets, set_plaintext_flows,
  default_keep_count, default_wire_packet_keep_count, default_plaintext_keep_count,
}
use netobserv_cli.Display.Flows.Buffers.{IsTimed, append-IsBuffer}
use netobserv_cli.Display.Flows.Indexed.{
  HasIndexBelow, IsWireBelow, IsPlaintextBelow, IsWellFormed, next_index-IsWellFormed,
  indexed-index, indexed-IsTimed,
}

-- What an operation leaves, if it returns: the memory of the same command, well-formed.
pub record Kept (s : Memory) (r : Option Memory) : Type 0 where
  pub result : Memory
  pub returns : r ≡ some result
  pub same_capture : result.capture ≡ s.capture
  pub well_formed : IsWellFormed result

module _ (sort : Less → List GenericMap → List GenericMap) (laws : SortLaws sort) where
  module _ (s : Memory) (h : IsWellFormed s) (m : GenericMap) (t : IsTimed s.capture m) where
    set_flows-Kept :
        HasIndexBelow s.flow_index m
        → Kept s (
            set_flows sort s
              (append_to_time_sorted_buffer sort s.capture s.last_flows m default_keep_count))
    unfolding set_flows
    set_flows-Kept i =
        let (kept, e, b) = append-IsBuffer sort laws s.capture _ _ s.last_flows m h.flows i t in
        record {
          result = record s { last_flows = kept };
          returns = ap (set_flows sort s) e;
          same_capture = refl;
          well_formed = record { flows = b; wires = h.wires; plaintexts = h.plaintexts };
        }

    set_wire_packets-Kept :
        IsWireBelow s.flow_index m
        → Kept s (
            set_wire_packets sort s (
              append_to_time_sorted_buffer sort s.capture s.last_wire_packets m
                default_wire_packet_keep_count))
    unfolding set_wire_packets
    set_wire_packets-Kept i =
        let (kept, e, b) =
          append-IsBuffer sort laws s.capture _ _ s.last_wire_packets m h.wires i t in
        record {
          result = record s { last_wire_packets = kept };
          returns = ap (set_wire_packets sort s) e;
          same_capture = refl;
          well_formed = record { flows = h.flows; wires = b; plaintexts = h.plaintexts };
        }

    set_plaintext_flows-Kept :
        IsPlaintextBelow s.flow_index m
        → Kept s (
            set_plaintext_flows sort s (
              append_to_time_sorted_buffer sort s.capture s.last_plaintext_flows m
                default_plaintext_keep_count))
    unfolding set_plaintext_flows
    set_plaintext_flows-Kept i =
        let (kept, e, b) =
          append-IsBuffer sort laws s.capture _ _ s.last_plaintext_flows m h.plaintexts i t in
        record {
          result = record s { last_plaintext_flows = kept };
          returns = ap (set_plaintext_flows sort s) e;
          same_capture = refl;
          well_formed = record { flows = h.flows; wires = h.wires; plaintexts = b };
        }

    append_by_kind-Kept : HasIndexBelow s.flow_index m → Kept s (append_by_kind sort s m)
    unfolding append_by_kind
    append_by_kind-Kept i = elim (Bool-cases (is_plaintext_record m)) [
      | inl e ↦ subst (Kept s) (sym (if_true _ _ e)) (set_plaintext_flows-Kept (i, e))
      | inr e ↦ elim (Bool-cases (is_wire_packet_record m)) [
        | inl w ↦
            subst (Kept s) (sym (if_false _ _ e ∙ if_true _ _ w)) (set_wire_packets-Kept (i, e, w))
        | inr w ↦ subst (Kept s) (sym (if_false _ _ e ∙ if_false _ _ w)) (set_flows-Kept i)
      ]
    ]

    append_indexed-Kept : HasIndexBelow s.flow_index m → Kept s (append_indexed sort s m)
    unfolding append_indexed
    append_indexed-Kept i = elim (Bool-cases (is_packets s.capture && s.tls)) [
      | inl e ↦ subst (Kept s) (sym (if_true _ _ e)) (append_by_kind-Kept i)
      | inr e ↦ subst (Kept s) (sym (if_false _ _ e)) (set_flows-Kept i)
    ]

  pub append_flow-Kept :
      (s : Memory) (m : GenericMap)
      → IsWellFormed s
      → IsTimed s.capture m
      → Kept s (append_flow sort m s)
  unfolding append_flow indexed
  append_flow-Kept s m h t = elim (Bool-cases s.paused) [
    | inl e ↦
        subst (Kept s) (sym (if_true _ _ e))
          (record { result = s; returns = refl; same_capture = refl; well_formed = h })
    | inr e ↦
        let s' = record s { flow_index = suc s.flow_index } in
        let x =
          append_indexed-Kept s' (next_index-IsWellFormed s h) (indexed s m)
            (indexed-IsTimed s.capture s m t) (s.flow_index, indexed-index s m, omega arith) in
        subst (Kept s) (sym (if_false _ _ e)) (record {
          result = x.result;
          returns = x.returns;
          same_capture = x.same_capture;
          well_formed = x.well_formed;
        })
  ]
