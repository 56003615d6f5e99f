-- ===== src/FlowCapture.antt =====
-- The flow capture: `onLimitReached` of cmd/root.go and the loop of `startFlowCollector` of
-- cmd/flow_capture.go; `Rows` is what cmd/flow_db.go stores of a flow.
pub mod Rows
pub mod Limits
pub mod Background
use netobserv_cli.Common.{
  ℕ, suc, ◌+◌, Bool, true, false, ◌&&◌, not, List, [], ◌∷◌, ◌++◌, Option, none, some, ltb,
  if◌then◌else◌,
}
use netobserv_cli.Text.{Bytes, codes}
use netobserv_cli.GenericMap.{GenericMap}
use netobserv_cli.Display.Flows.{Memory}

-- The globals of `onLimitReached`, and how often it stopped the display and deleted the agents'
-- DaemonSet. `shows_display` is `app != nil && errAdvancedDisplay == nil`.
pub record Lifecycle : Type 0 where
  pub capture_ended : Bool
  pub is_background : Bool
  pub shows_display : Bool
  pub app_stops : ℕ
  pub daemonset_deletions : ℕ

-- `onLimitReached`: whether the caller is to exit.
unfoldable pub on_limit_reached : Lifecycle → Bool × Lifecycle
on_limit_reached l = if l.capture_ended then (false, l) else (
  not l.is_background,
  record l {
    capture_ended = true;
    app_stops = if l.shows_display then suc l.app_stops else l.app_stops;
    daemonset_deletions =
        if l.is_background then suc l.daemonset_deletions else l.daemonset_deletions;
  },
)

-- The collector: the flows for each of which it started a goroutine (`parseGenericMapAndAppendFlow`),
-- the flows that the database took, and the lines that it wrote to its file. The goroutines run in
-- any order; where one panics, the program ends.
pub record Collector : Type 0 where
  pub lifecycle : Lifecycle
  pub total_bytes : ℕ
  pub started : List Bytes
  pub stored : List Bytes
  pub written : List Bytes

-- A flow that arrives, with what the round meets: whether a stop was received, whether `queryFlowDB`
-- stores it without an error, what `f.Write` gives (`none` for an error), and the time since the
-- start.
pub record Arrival : Type 0 where
  pub value : Bytes
  pub stop_received : Bool
  pub is_stored : Bool
  pub written_bytes : Option ℕ
  pub elapsed : ℕ

pub data Outcome : Type 0 where
  waiting : Collector → Outcome
  returned : Collector → Outcome

-- Ends the capture if the limit is passed.
unfoldable pub check_limit : Bool → Collector → Bool × Collector
unfolding on_limit_reached
check_limit over s =
    if over
    then (
      (on_limit_reached s.lifecycle).0,
      record s { lifecycle = (on_limit_reached s.lifecycle).1 },
    )
    else (false, s)

-- `parseGenericMapAndAppendFlow`, where `json.Unmarshal` into a map is a parameter: what does not
-- parse is left out. The memory of the table is `none` where `AppendFlow` panics.
unfoldable pub parse_generic_map_and_append_flow :
    (Bytes → Option GenericMap)
    → (GenericMap → Memory → Option Memory)
    → Bytes
    → Memory
    → Option Memory
parse_generic_map_and_append_flow json_map append_flow value s = elim (json_map value) [
  | none ↦ some s
  | some m ↦ append_flow m s
]

-- What is written for a flow.
unfoldable pub flow_line : Bytes → Bytes
flow_line value = value ++ codes ",\n"

module _ (max_bytes max_time : ℕ) where
  -- The two limits, the bytes first.
  unfoldable pub check_limits : ℕ → Collector → Outcome
  unfolding check_limit
  check_limits elapsed s =
      let by_size = check_limit (ltb max_bytes s.total_bytes) s in
      let by_time = check_limit (ltb max_time elapsed) by_size.1 in
      if by_size.0
      then returned by_size.1
      else if by_time.0
      then returned by_time.1
      else waiting by_time.1

  unfoldable pub after_write : Bytes → ℕ → Option ℕ → Collector → Outcome
  unfolding check_limits flow_line
  after_write value elapsed none s = returned s
  after_write value elapsed (some bytes) s = check_limits elapsed (record s {
    written = s.written ++ flow_line value ∷ [];
    total_bytes = s.total_bytes + bytes;
  })

  -- One round of the loop; an error of `queryFlowDB` is logged.
  unfoldable pub flow_round : Arrival → Collector → Outcome
  unfolding after_write
  flow_round a s =
      if a.stop_received
      then returned s
      else after_write a.value a.elapsed a.written_bytes (record s {
        started = s.started ++ a.value ∷ [];
        stored = if a.is_stored then s.stored ++ a.value ∷ [] else s.stored;
      })

  unfoldable pub collect_flows : List Arrival → Collector → Outcome
  unfolding flow_round
  collect_flows [] s = waiting s
  collect_flows (a ∷ arrivals) s = elim (flow_round a s) [
    | waiting r ↦ collect_flows arrivals r
    | returned r ↦ returned r
  ]
