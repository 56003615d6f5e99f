-- ===== src/Metrics.antt =====
-- The graphs of the metric capture: `updateGraphs`, `appendMetrics` and `updateData` of
-- cmd/metric_display.go, on the series that Prometheus answers with.
pub mod Rows
pub mod Values
use netobserv_cli.Common.{
  ℕ, zero, suc, ◌+◌, Bool, true, false, ◌||◌, List, [], ◌∷◌, ◌++◌, map, Option, none, some, ltb,
  leb, ◌==◌, if◌then◌else◌, length, set, take, get_elem?, not,
}
use netobserv_cli.Text.{Bytes, eq_bytes, is_empty}
use netobserv_cli.GenericMap.{Float, whole}
use netobserv_cli.Display.Columns.{contains_id}
use netobserv_cli.Display.Options.{OptionItem}

-- A series: its labels, in the order of Go's iteration, and its samples with their times.
pub record Series : Type 0 where
  pub metric : List (Bytes × Bytes)
  pub samples : List (ℕ × Float)

-- `Graph` without the plot; a nil row is empty.
pub record Graph : Type 0 where
  pub prom_ql : Bytes
  pub labels : List Bytes
  pub legends : List (List (Bytes × Bytes))
  pub rows : List (List Float)

abbrev pub new_graph : Bytes → Graph
new_graph prom_ql = record { prom_ql = prom_ql; labels = []; legends = []; rows = [] }

-- The graphs of `updateGraphs`: of the chosen panels, or else of the current one.
unfoldable pub update_graphs : List Bytes → OptionItem → List Graph
update_graphs selected panel = map new_graph (if is_empty selected then panel.ids else selected)

-- `len(colors)`.
abbrev pub colors_count : ℕ
colors_count = 25

unfoldable pub add_labels : List Bytes → List (Bytes × Bytes) → List Bytes
unfolding contains_id
add_labels labels [] = labels
add_labels labels ((k, v) ∷ metric) =
    add_labels (if contains_id k labels then labels else labels ++ k ∷ []) metric

unfoldable pub all_labels : List Bytes → List Series → List Bytes
unfolding add_labels
all_labels labels [] = labels
all_labels labels (s ∷ matrix) = all_labels (add_labels labels s.metric) matrix

abbrev pub times_of : Series → List ℕ
times_of s = map (λ (v : ℕ × Float). v.0) s.samples

-- The longest series so far and the times that were kept: those of each series that was longer than
-- the ones before it.
unfoldable pub scan_times : ℕ → List ℕ → List Series → ℕ × List ℕ
scan_times longest times [] = (longest, times)
scan_times longest times (s ∷ matrix) =
    if ltb longest (length s.samples)
    then scan_times (length s.samples) (times ++ times_of s) matrix
    else scan_times longest times matrix

-- The first position, from `j` on, of a time that is not before `t`; 0 if there is none.
unfoldable pub start_from : ℕ → ℕ → List ℕ → ℕ
start_from t j [] = 0
start_from t j (u ∷ times) = let later = start_from t (suc j) times in if leb t u then j else later

unfoldable pub zeros : ℕ → List Float
zeros zero = []
zeros (suc n) = whole 0 ∷ zeros n

-- The samples from position `i` on, as far as the row reaches.
unfoldable pub fill_row : ℕ → List (ℕ × Float) → List Float → List Float
fill_row i [] row = row
fill_row i ((t, v) ∷ samples) row =
    fill_row (suc i) samples (if ltb i (length row) then set row i v else row)

unfoldable pub cons_row : List Float → Option (List (List Float)) → Option (List (List Float))
cons_row row none = none
cons_row row (some rows) = some (row ∷ rows)

-- The rows of a shorter series and of those after it, by its first sample: at the position that its
-- time gives, where 0 ends the loop, with all further rows nil; without a sample the index fails.
unfoldable pub short_rows :
    ℕ
    → List ℕ
    → List Series
    → Option (List (List Float))
    → List (ℕ × Float)
    → Option (List (List Float))
unfolding start_from fill_row zeros cons_row
short_rows longest times rest further [] = none
short_rows longest times rest further ((t, v) ∷ samples) =
    let start = start_from t 0 times in
    if start == 0
    then some ([] ∷ map (λ (s : Series). []) rest)
    else cons_row (fill_row start ((t, v) ∷ samples) (zeros longest)) further

unfoldable pub data_rows : ℕ → List ℕ → List Series → Option (List (List Float))
unfolding short_rows fill_row zeros cons_row
data_rows longest times [] = some []
data_rows longest times (s ∷ matrix) =
    let further = data_rows longest times matrix in
    if ltb (length s.samples) longest
    then short_rows longest times matrix further s.samples
    else cons_row (fill_row 0 s.samples (zeros longest)) further

-- The nil rows of `make`, or the rows of the series, where one has a sample.
unfoldable pub rows_of : List Series → ℕ × List ℕ → Option (List (List Float))
unfolding data_rows
rows_of matrix (longest, times) =
    if ltb 0 longest then data_rows longest times matrix else some (map (λ (s : Series). []) matrix)

-- `sort.Strings` is a parameter.
module _ (sort_strings : List Bytes → List Bytes) where
  unfoldable pub set_rows : Graph → List Series → Option (List (List Float)) → Option Graph
  unfolding all_labels
  set_rows g matrix none = none
  set_rows g matrix (some rows) = some (record g {
    labels = sort_strings (all_labels [] matrix);
    legends = map (λ (s : Series). s.metric) matrix;
    rows = rows;
  })

  -- `updateData`: a series more than there are colors is left out.
  unfoldable pub update_data : List Series → Graph → Option Graph
  unfolding set_rows rows_of scan_times
  update_data [] g = some (record g { rows = [] })
  update_data (s ∷ matrix) g =
      let shown =
        if ltb colors_count (length (s ∷ matrix))
        then take colors_count (s ∷ matrix)
        else s ∷ matrix in
      set_rows g shown (rows_of shown (scan_times 0 [] shown))

  unfoldable pub update_at : ℕ → Option Graph → List Graph → Option (List Graph)
  update_at index none graphs = none
  update_at index (some g) graphs = some (set graphs index g)

  -- `appendMetrics`, for a query and an answer that are there: only a graph that still shows the query
  -- takes the answer.
  unfoldable pub append_metrics : Bool → Bytes → List Series → ℕ → List Graph → Option (List Graph)
  unfolding update_data update_at eq_bytes
  append_metrics paused prom_ql matrix index graphs = elim (get_elem? graphs index) [
    | none ↦ some graphs
    | some g ↦
        if paused || not (eq_bytes g.prom_ql prom_ql)
        then some graphs
        else update_at index (update_data matrix g) graphs
  ]
