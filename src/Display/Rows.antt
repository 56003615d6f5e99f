-- ===== src/Display/Rows.antt =====
-- The rows of the table: `getFlows` and `trimFlowsToShowCount` of cmd/flow_display.go.
pub mod Newest
use netobserv_cli.Common.{
  ℕ, zero, suc, Bool, true, ◌&&◌, List, [], ◌∷◌, ◌++◌, Option, none, some, leb, all, any, filter,
  length, if◌then◌else◌, not,
}
use netobserv_cli.Common.Int.{ℤ, leb_ℤ}
use netobserv_cli.Text.{Bytes, codes, is_empty}
use netobserv_cli.GenericMap.{GenericMap, lookup, int, Value}
use netobserv_cli.Display.Order.{Capture}
use netobserv_cli.Display.Sorting.{Less, keep_last}
use netobserv_cli.Display.Flows.{Memory, is_packets, sort_flows, packet_capture_flow_snapshot}

-- `flow["Index"].(int)`, and `none` where the assertion fails.
unfoldable pub index_in : Option Value → Option ℤ
index_in (some (int n)) = some n
index_in _ = none

unfoldable pub row_index : GenericMap → Option ℤ
unfolding index_in
row_index m = index_in (lookup (codes "Index") m)

-- `append(s, x)` at the front of what follows, if both could be computed.
unfoldable pub cons_if {ℓ} : {A : Type ℓ} → Option A → Option (List A) → Option (List A)
cons_if (some x) (some xs) = some (x ∷ xs)
cons_if _ _ = none

unfoldable pub indexes : List GenericMap → Option (List ℤ)
unfolding cons_if row_index
indexes [] = some []
indexes (m ∷ rows) = cons_if (row_index m) (indexes rows)

-- `slices.Contains(indexes, i)`.
unfoldable pub contains_index : ℤ → List ℤ → Bool
unfolding any
contains_index i is = any (λ j. leb_ℤ i j && leb_ℤ j i) is

unfoldable pub keep_missing :
    List ℤ → GenericMap → Option ℤ → Option (List GenericMap) → Option (List GenericMap)
unfolding contains_index
keep_missing is m (some i) (some rest) = some (if contains_index i is then rest else m ∷ rest)
keep_missing is m _ _ = none

-- The rows of the table that are not in the buffer any more.
unfoldable pub missing_flows : List ℤ → List GenericMap → Option (List GenericMap)
unfolding keep_missing row_index
missing_flows is [] = some []
missing_flows is (m ∷ rows) = keep_missing is m (row_index m) (missing_flows is rows)

unfoldable pub append_missing :
    Option (List ℤ) → List GenericMap → List GenericMap → Option (List GenericMap)
unfolding missing_flows
append_missing none shown snapshot = none
append_missing (some is) shown snapshot = elim (missing_flows is shown) [
  | none ↦ none
  | some rows ↦ some (rows ++ snapshot)
]

module _ (sort : Less → List GenericMap → List GenericMap) where
  -- The last flows, sorted first in a packet capture.
  unfoldable pub trim_flows_to_show_count : Capture → List GenericMap → ℕ → Option (List GenericMap)
  unfolding keep_last sort_flows is_packets
  trim_flows_to_show_count c flows zero = some []
  trim_flows_to_show_count c flows (suc n) =
      if leb (length flows) (suc n)
      then some flows
      else if is_packets c
      then elim (sort_flows sort c flows) [ none ↦ none | some xs ↦ some (keep_last (suc n) xs) ]
      else some (keep_last (suc n) flows)

  -- `regexp.MatchString(regex, fmt.Sprintf("%v", flow))`, false where it gives an error.
  module _ (regex_match : Bytes → GenericMap → Bool) where
    unfoldable pub matches : List Bytes → GenericMap → Bool
    unfolding all
    matches regexes m = all (λ r. regex_match r m) regexes

    unfoldable pub filter_flows : List Bytes → List GenericMap → List GenericMap
    unfolding matches
    filter_flows regexes flows = if is_empty regexes then flows else filter (matches regexes) flows

    -- The flows that are filtered: in a flow capture, with the rows that left the buffer.
    unfoldable pub candidates :
        Capture → List GenericMap → Option (List GenericMap) → Option (List GenericMap)
    unfolding append_missing indexes is_packets
    candidates c shown none = none
    candidates c shown (some snapshot) =
        if is_packets c then some snapshot else append_missing (indexes snapshot) shown snapshot

    unfoldable pub trim_candidates :
        Capture → List Bytes → ℕ → Option (List GenericMap) → Option (List GenericMap)
    unfolding trim_flows_to_show_count filter_flows
    trim_candidates c regexes show_count none = none
    trim_candidates c regexes show_count (some flows) =
        trim_flows_to_show_count c (filter_flows regexes flows) show_count

    -- `getFlows`; `shown` are the rows of the table before.
    unfoldable pub get_flows : Memory → List GenericMap → List Bytes → ℕ → Option (List GenericMap)
    unfolding trim_candidates candidates packet_capture_flow_snapshot
    get_flows s shown regexes show_count =
        trim_candidates s.capture regexes show_count
          (candidates s.capture shown (packet_capture_flow_snapshot sort s))
