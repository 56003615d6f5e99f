-- ===== src/FlowCapture/Background.antt =====
-- A flow capture in the background, which its limits do not end.
use netobserv_cli.Common.{
  ℕ, ◌≡◌, Bool, true, ◌&&◌, not, List, [], ◌∷◌, ◌++◌, map, is_some, if◌then◌else◌,
}
use netobserv_cli.FlowCapture.{Collector, Arrival, flow_line}
use netobserv_cli.Text.{Bytes}

module _ (max_bytes max_time : ℕ) where
  -- The line is written and no stop is received.
  unfoldable pub goes_on : Arrival → Bool
  goes_on a = not a.stop_received && is_some a.written_bytes

  -- The flows that the database takes.
  abbrev pub stored_values : List Arrival → List Bytes
  stored_values [] = []
  stored_values (a ∷ arrivals) =
      let rest = stored_values arrivals in if a.is_stored then a.value ∷ rest else rest

  -- A collector in the background that keeps all: what it had, and the arrivals.
  pub record KeepsAll (arrivals : List Arrival) (s r : Collector) : Type 0 where
    pub in_background : r.lifecycle.is_background ≡ true
    pub all_written : r.written ≡ s.written ++ map (λ (a : Arrival). flow_line a.value) arrivals
    pub all_stored : r.stored ≡ s.stored ++ stored_values arrivals
    pub all_started : r.started ≡ s.started ++ map (λ (a : Arrival). a.value) arrivals
