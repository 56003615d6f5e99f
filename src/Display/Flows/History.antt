-- ===== src/Display/Flows/History.antt =====
-- Whole histories of the memory of the table.
use netobserv_cli.Common.{◌≡◌, refl, sym, ap, subst, Bool, List, [], ◌∷◌, Option, none, some, ◌∙◌}
use netobserv_cli.GenericMap.{GenericMap}
use netobserv_cli.Display.Order.{Capture}
use netobserv_cli.Display.Sorting.{Less, SortLaws}
use netobserv_cli.Display.Flows.{
  Memory, append_flow, clear_packet_capture_buffers, pause, empty_memory,
}
use netobserv_cli.Display.Flows.Buffers.{IsTimed, IsBuffer-nil}
use netobserv_cli.Display.Flows.Indexed.{IsWellFormed, empty_memory-IsWellFormed}
use netobserv_cli.Display.Flows.Invariant.{Kept, append_flow-Kept}

-- What happens to the memory: a flow comes in, the table is paused or resumed, a capture starts.
pub data Change : Type 0 where
  appended : GenericMap → Change
  paused_as : Bool → Change
  cleared : Change

-- Every flow that comes in has the times that its capture sorts by.
unfoldable pub AllTimed : Capture → List Change → Type 0
AllTimed c [] = Unit
AllTimed c (appended m ∷ changes) = IsTimed c m × AllTimed c changes
AllTimed c (paused_as b ∷ changes) = AllTimed c changes
AllTimed c (cleared ∷ changes) = AllTimed c changes

module _ (sort : Less → List GenericMap → List GenericMap) where
  unfoldable pub change : Change → Memory → Option Memory
  unfolding append_flow pause clear_packet_capture_buffers
  change (appended m) s = append_flow sort m s
  change (paused_as b) s = some (pause b s)
  change cleared s = some (clear_packet_capture_buffers s)

  unfoldable pub run_changes : List Change → Memory → Option Memory
  unfolding change
  run_changes [] s = some s
  run_changes (c ∷ changes) s = elim (change c s) [ none ↦ none | some r ↦ run_changes changes r ]

  module _ (laws : SortLaws sort) where
    timed-cons :
        (c : Capture) (x : Change) (changes : List Change)
        → AllTimed c (x ∷ changes)
        → AllTimed c changes
    unfolding AllTimed
    timed-cons c (appended m) changes h = h.1
    timed-cons c (paused_as b) changes h = h
    timed-cons c cleared changes h = h

    change-Kept :
        (x : Change) (changes : List Change) (s : Memory)
        → AllTimed s.capture (x ∷ changes)
        → IsWellFormed s
        → Kept s (change x s)
    unfolding change AllTimed pause clear_packet_capture_buffers
    change-Kept (appended m) changes s t h = append_flow-Kept sort laws s m h t.0
    change-Kept (paused_as b) changes s t h = record {
      result = record s { paused = b };
      returns = refl;
      same_capture = refl;
      well_formed = record { flows = h.flows; wires = h.wires; plaintexts = h.plaintexts };
    }
    change-Kept cleared changes s t h = record {
      result = record s { last_wire_packets = []; last_plaintext_flows = [] };
      returns = refl;
      same_capture = refl;
      well_formed = record {
        flows = h.flows;
        wires = IsBuffer-nil s.capture _ _;
        plaintexts = IsBuffer-nil s.capture _ _;
      };
    }

    run_changes-IsWellFormed :
        (changes : List Change) (s : Memory)
        → AllTimed s.capture changes
        → IsWellFormed s
        → (r : Memory) × (run_changes changes s ≡ some r) × IsWellFormed r
    unfolding run_changes
    run_changes-IsWellFormed [] s t h = (s, refl, h)
    run_changes-IsWellFormed (x ∷ changes) s t h =
        let k = change-Kept x changes s t h in
        let later = timed-cons s.capture x changes t in
        let timed = subst (λ c. AllTimed c changes) (sym k.same_capture) later in
        let (r, e, w) = run_changes-IsWellFormed changes k.result timed k.well_formed in
        (
          r,
          ap
                (λ (o : Option Memory). elim o as (λ _. Option Memory) [
                  | none ↦ none
                  | some q ↦ run_changes changes q
                ])
                k.returns
              ∙ e,
          w,
        )

    -- Whatever flows come in, all of which have the times that the capture sorts by, and whenever the
    -- table is paused or cleared, the program goes on, and its three buffers stay in order and within
    -- 100, 200 and 300 flows; one holds plaintext records alone, one packets that are none, and every
    -- flow of each has an index that was given.
    pub history-IsWellFormed :
        (c : Capture) (tls : Bool) (changes : List Change)
        → AllTimed c changes
        → (r : Memory) × (run_changes changes (empty_memory c tls) ≡ some r) × IsWellFormed r
    history-IsWellFormed c tls changes t =
        run_changes-IsWellFormed changes (empty_memory c tls) t (empty_memory-IsWellFormed c tls)
