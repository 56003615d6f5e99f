-- ===== src/Tests/Table.antt =====
-- The table of the flows on concrete inputs.
use netobserv_cli.Common.{
  ℕ, ◌+◌, ◌≡◌, ◌≤◌, ◌<◌, ◌⊎◌, refl, sym, subst, Bool, true, false, not, List, [], ◌∷◌, ◌++◌, none,
  some, arith, length, if◌then◌else◌, All, ◌-◌, take, if_true, if_false, Bool-cases, inl, inr, ◌≢◌,
  any,
}
use mathlib.Core.List.{Permᴰ}
use mathlib.Core.List.Permᴰ
use netobserv_cli.Common.Int.{pos}
use netobserv_cli.Text.{Bytes, codes, eq_bytes, is_empty}
use netobserv_cli.GenericMap.{GenericMap, str, float64, whole, null, lookup, int, get}
use netobserv_cli.Display.Order.{Capture, StrictWeak, flow_key, less_flows}
use netobserv_cli.Display.Sorting.{Less, IsSorted, SortLaws, All-Perm}
use netobserv_cli.Display.Flows.{
  Memory, empty_memory, is_packets, is_wire_packet_record, comparable, append_to_time_sorted_buffer,
}
use netobserv_cli.Display.Flows.Newest.{IsNewest, append-IsNewest}
use netobserv_cli.Display.Flows.Indexed.{IsWellFormed}
use netobserv_cli.Display.Flows.History.{
  AllTimed, Change, appended, paused_as, cleared, run_changes, history-IsWellFormed,
}
use netobserv_cli.Display.Rows.{get_flows, filter_flows}
use netobserv_cli.Display.Rows.Newest.{get_flows-IsNewest}
use netobserv_cli.Display.Options.{OptionItem, prev, next, default_display}
use netobserv_cli.Display.Options.Cycles.{IsChoice, prev-next}
use netobserv_cli.Display.Columns.{contains_id, base_cols, get_cols, plaintext_capture_column_ids}
use netobserv_cli.Display.Columns.Laws.{IsUnique, plaintext_columns_shown}
use netobserv_cli.Format.{ellipsize_and_pad, spaces, ellipsis, count_runes}
use netobserv_cli.Format.Laws.{ellipsize_and_pad-width}
use netobserv_cli.Format.Cells.{Printers, ColumnConfig, to_col_value, to_field_name}
use netobserv_cli.Format.Failures.{IsNumberOrMissing, number_columns, to_col_value-returns}
use netobserv_cli.Session.{is_plaintext_record}
use netobserv_cli.Tests.{sample_extern}
use netobserv_cli.Metrics.{Series, Graph, new_graph, update_data}
use netobserv_cli.Metrics.Values.{update_data-values}
use netobserv_cli.Metrics.Rows.{IsDrawable, update_data-IsDrawable}

-- A sort by insertion, which has the laws of `sort.Slice`.
insert : Less → GenericMap → List GenericMap → List GenericMap
insert less x [] = x ∷ []
insert less x (y ∷ ys) = let rest = insert less x ys in if less y x then y ∷ rest else x ∷ y ∷ ys

insertion_sort : Less → List GenericMap → List GenericMap
insertion_sort less [] = []
insertion_sort less (x ∷ xs) = insert less x (insertion_sort less xs)

insert-Perm :
    (less : Less) (x : GenericMap) (ys : List GenericMap) → Permᴰ (insert less x ys) (x ∷ ys)
unfolding insert
insert-Perm less x [] = Permᴰ.refl (x ∷ [])
insert-Perm less x (y ∷ ys) = by_test (less y x) (insert-Perm less x ys)
  where
    by_test :
        (b : Bool)
        → Permᴰ (insert less x ys) (x ∷ ys)
        → Permᴰ (if b then y ∷ insert less x ys else x ∷ y ∷ ys) (x ∷ y ∷ ys)
    by_test true p = Permᴰ.trans (Permᴰ.cons refl p) (Permᴰ.swap refl refl)
    by_test false p = Permᴰ.refl (x ∷ y ∷ ys)

insertion_sort-Perm : (less : Less) (xs : List GenericMap) → Permᴰ (insertion_sort less xs) xs
unfolding insertion_sort
insertion_sort-Perm less [] = Permᴰ.nil
insertion_sort-Perm less (x ∷ xs) =
    Permᴰ.trans (insert-Perm less x (insertion_sort less xs))
      (Permᴰ.cons refl (insertion_sort-Perm less xs))

insert-IsSorted :
    (less : Less) (w : StrictWeak less) (x : GenericMap) (ys : List GenericMap)
    → IsSorted less ys
    → IsSorted less (insert less x ys)
unfolding insert
insert-IsSorted less w x [] h = (tt, tt)
insert-IsSorted less w x (y ∷ ys) h = elim (Bool-cases (less y x)) [
  | inl e ↦ subst (IsSorted less) (sym (if_true _ _ e)) (
    All-Perm (λ z. less z y ≡ false) (Permᴰ.symm (insert-Perm less x ys)) (w.asym y x e, h.0),
    insert-IsSorted less w x ys h.1,
  )
  | inr e ↦ subst (IsSorted less) (sym (if_false _ _ e)) ((e, later e ys h.0), h)
]
  where
    later :
        less y x ≡ false
        → (zs : List GenericMap) → All (λ z. less z y ≡ false) zs
        → All (λ z. less z x ≡ false) zs
    later e [] h = tt
    later e (z ∷ zs) h = (w.trans x y z e h.0, later e zs h.1)

insertion_sort-IsSorted :
    (less : Less) (xs : List GenericMap) → StrictWeak less → IsSorted less (insertion_sort less xs)
unfolding insertion_sort
insertion_sort-IsSorted less [] w = tt
insertion_sort-IsSorted less (x ∷ xs) w =
    insert-IsSorted less w x (insertion_sort less xs) (insertion_sort-IsSorted less xs w)

insertion_laws : SortLaws insertion_sort
insertion_laws = record { permutes = insertion_sort-Perm; sorts = insertion_sort-IsSorted }

abbrev at_time : ℕ → GenericMap
at_time t = (codes "TimeFlowStartMs", float64 (whole t)) ∷ (codes "Data", str (codes "abc")) ∷ []

three_comparable :
    comparable Capture.packets ((at_time 5 ∷ at_time 9 ∷ []) ++ at_time 7 ∷ []) ≡ true
unfolding comparable flow_key lookup eq_bytes
three_comparable = refl

append-IsNewest_example :
    (kept : List GenericMap) × (append_to_time_sorted_buffer insertion_sort Capture.packets
        (at_time 5 ∷ at_time 9 ∷ [])
        (at_time 7)
        2
      ≡ some kept)
    × IsNewest Capture.packets 2 ((at_time 5 ∷ at_time 9 ∷ []) ++ at_time 7 ∷ []) kept
append-IsNewest_example =
    append-IsNewest insertion_sort insertion_laws Capture.packets (at_time 5 ∷ at_time 9 ∷ [])
      (at_time 7) 2 three_comparable

abbrev sample_changes : List Change
sample_changes = cleared ∷ appended (at_time 9) ∷ appended (at_time 5) ∷ paused_as true ∷ []

changes_timed : AllTimed Capture.packets sample_changes
unfolding AllTimed flow_key lookup eq_bytes
changes_timed = (refl, (refl, tt))

history-IsWellFormed_example :
    (r : Memory) × (run_changes insertion_sort sample_changes (empty_memory Capture.packets true)
      ≡ some r)
    × IsWellFormed r
history-IsWellFormed_example =
    history-IsWellFormed insertion_sort insertion_laws Capture.packets true sample_changes
      changes_timed

-- A memory that holds two packets.
abbrev held_packet : ℕ → ℕ → GenericMap
held_packet i t = (codes "Index", int (pos i)) ∷ at_time t

abbrev two_held : List GenericMap
two_held = held_packet 0 5 ∷ held_packet 1 9 ∷ []

abbrev sample_memory : Memory
sample_memory = record (empty_memory Capture.packets true) {
  flow_index = 2;
  last_wire_packets = two_held;
}

sample_memory-IsWellFormed : IsWellFormed sample_memory
unfolding flow_key lookup eq_bytes less_flows is_plaintext_record is_wire_packet_record get
sample_memory-IsWellFormed = record {
  flows = record { sorted = tt; bounded = omega arith; each = tt; timed = tt };
  wires = record {
    sorted = ((refl, tt), (tt, tt));
    bounded = omega arith;
    each = (((0, refl, omega arith), refl, refl), (((1, refl, omega arith), refl, refl), tt));
    timed = (refl, (refl, tt));
  };
  plaintexts = record { sorted = tt; bounded = omega arith; each = tt; timed = tt };
}

abbrev any_match : Bytes → GenericMap → Bool
any_match regex m = not (is_empty regex)

get_flows-IsNewest_example :
    (rows : List GenericMap) × (get_flows insertion_sort any_match sample_memory []
        (codes "a" ∷ [])
        1
      ≡ some rows)
    × IsNewest Capture.packets 1
        (filter_flows insertion_sort any_match (codes "a" ∷ []) (two_held ++ []))
        rows
get_flows-IsNewest_example =
    get_flows-IsNewest insertion_sort insertion_laws any_match sample_memory [] (codes "a" ∷ []) 1
      refl refl sample_memory-IsWellFormed

prev-next_example :
    (prev (next default_display) ≡ default_display)
    × (next (prev default_display) ≡ default_display)
    × IsChoice (next default_display)
    × IsChoice (prev default_display)
prev-next_example = prev-next default_display (omega arith)

abbrev long_text : Bytes
long_text = codes "High-Throughput Data"

long_text-IsAscii : All (λ c. c < 0x80) long_text
long_text-IsAscii = (
  omega arith,
  (
    omega arith,
    (
      omega arith,
      (
        omega arith,
        (
          omega arith,
          (
            omega arith,
            (
              omega arith,
              (
                omega arith,
                (
                  omega arith,
                  (
                    omega arith,
                    (
                      omega arith,
                      (
                        omega arith,
                        (
                          omega arith,
                          (
                            omega arith,
                            (
                              omega arith,
                              (
                                omega arith,
                                (omega arith, (omega arith, (omega arith, (omega arith, tt)))),
                              ),
                            ),
                          ),
                        ),
                      ),
                    ),
                  ),
                ),
              ),
            ),
          ),
        ),
      ),
    ),
  ),
)

ellipsize_and_pad-width_example :
    ((length long_text ≤ 10)
      × (ellipsize_and_pad long_text 10 ≡ long_text ++ spaces (10 - length long_text))
      × (count_runes (ellipsize_and_pad long_text 10) ≡ 10))
    ⊎ ((k : ℕ) × k ≤ 10
        × 10 < length long_text
        × (ellipsize_and_pad long_text 10 ≡ take k long_text ++ ellipsis ++ spaces (10 - (k + 1)))
        × 10 ≤ count_runes (ellipsize_and_pad long_text 10)
        × count_runes (ellipsize_and_pad long_text 10) ≤ 10 + 1)
ellipsize_and_pad-width_example =
    ellipsize_and_pad-width long_text 10 long_text-IsAscii (omega arith)

abbrev sample_column : Bytes → Bytes → Bytes → ColumnConfig
sample_column id field feature = record {
  id = id;
  name = id;
  group = [];
  field = field;
  default = true;
  width = 10;
  feature = feature;
}

abbrev sample_columns : List ColumnConfig
sample_columns =
    sample_column (codes "SrcAddr") (codes "SrcAddr") []
    ∷ sample_column (codes "Pid") (codes "Pid") (codes "plaintextCapture")
    ∷ []

abbrev sample_printers : Printers
sample_printers = record {
  size_string = λ n. codes "1B";
  duration_string = λ n. codes "1ms";
  time_string = λ n. codes "00:00:00";
  network_events = λ m. [];
  print_map = λ m. codes "map[]";
  shorten = λ s. s;
}

-- A TCP flow.
abbrev tcp_flow : GenericMap
tcp_flow = (codes "Proto", float64 (whole 6)) ∷ []

tcp_flow_no_null : (field : Bytes) → lookup field tcp_flow ≢ some null
unfolding lookup
tcp_flow_no_null field = by_name (eq_bytes (codes "Proto") field)
  where
    by_name : (b : Bool) → (if b then some (float64 (whole 6)) else none) ≢ some null
    by_name true h = absurd (cc h)
    by_name false h = absurd (cc h)

tcp_flow_numbers :
    All
      (λ field.
        IsNumberOrMissing sample_extern sample_printers sample_columns Capture.flows
          (lookup field tcp_flow))
      (codes "TimeFlowEndMs" ∷ codes "Time" ∷ codes "Bytes" ∷ codes "PktDropBytes" ∷ [])
unfolding lookup eq_bytes
tcp_flow_numbers = (tt, (tt, (tt, (tt, tt))))

bytes_no_column :
    any
        (eq_bytes (codes "Bytes"))
        (number_columns sample_extern sample_printers sample_columns Capture.flows)
      ≡ true
    → IsNumberOrMissing sample_extern sample_printers sample_columns Capture.flows (
        lookup
          (to_field_name sample_extern sample_printers sample_columns Capture.flows (codes "Bytes"))
          tcp_flow)
unfolding any eq_bytes
bytes_no_column h = absurd (cc h)

to_col_value-returns_example :
    (t : Bytes) × (to_col_value sample_extern sample_printers sample_columns Capture.flows tcp_flow
        (codes "Bytes")
        10
      ≡ some t)
to_col_value-returns_example =
    to_col_value-returns sample_extern sample_printers sample_columns Capture.flows tcp_flow
      (codes "Bytes") 10 tcp_flow_no_null tcp_flow_numbers bytes_no_column

abbrev standard_item : OptionItem
standard_item = record { name = codes "Standard"; ids = [] }

abbrev zone_item : OptionItem
zone_item = record { name = codes "Zone"; ids = codes "SrcZone" ∷ codes "DstZone" ∷ [] }

standard_cols-IsUnique :
    IsUnique (base_cols sample_columns Capture.packets true [] standard_item zone_item)
unfolding base_cols
standard_cols-IsUnique =
    (refl, (refl, (refl, (refl, (refl, (refl, (refl, (refl, (refl, (refl, tt))))))))))

packets_are_packets : is_packets Capture.packets ≡ true
unfolding is_packets
packets_are_packets = refl

plaintext_columns_shown_example :
    let base = base_cols sample_columns Capture.packets true [] standard_item zone_item in
    let cols = get_cols sample_columns Capture.packets true [] standard_item zone_item in
    ((added : List Bytes) × (cols ≡ base ++ added))
    × All
        (λ i. contains_id i cols ≡ true)
        (codes "RecordType" ∷ plaintext_capture_column_ids sample_columns Capture.packets true)
    × IsUnique cols
plaintext_columns_shown_example =
    plaintext_columns_shown sample_columns Capture.packets true standard_item zone_item
      packets_are_packets refl standard_cols-IsUnique

zone_absent : contains_id (codes "Zone") (codes "Pid" ∷ []) ≡ false
unfolding contains_id eq_bytes
zone_absent = refl

one_unique : contains_id (codes "Pid") [] ≡ false
unfolding contains_id
one_unique = refl

-- Two series, the second of which starts later.
abbrev long_series : Series
long_series = record {
  metric = (codes "type", codes "a") ∷ [];
  samples = (10, whole 1) ∷ (20, whole 2) ∷ [];
}

abbrev late_series : Series
late_series = record { metric = (codes "type", codes "b") ∷ []; samples = (20, whole 3) ∷ [] }

update_data-IsDrawable_example :
    (r : Graph) × (update_data
        (λ labels. labels)
        (long_series ∷ late_series ∷ [])
        (new_graph (codes "q"))
      ≡ some r)
    × IsDrawable (long_series ∷ late_series ∷ []) r
update_data-IsDrawable_example =
    update_data-IsDrawable (λ labels. labels) long_series (late_series ∷ []) (new_graph (codes "q"))
      (omega arith, (omega arith, tt))

update_data-values_example :
    (r : Graph) × (update_data
        (λ labels. labels)
        (long_series ∷ long_series ∷ [])
        (new_graph (codes "q"))
      ≡ some r)
    × (r.rows ≡ (whole 1 ∷ whole 2 ∷ []) ∷ (whole 1 ∷ whole 2 ∷ []) ∷ [])
    × (r.legends ≡ ((codes "type", codes "a") ∷ []) ∷ ((codes "type", codes "a") ∷ []) ∷ [])
update_data-values_example =
    update_data-values (λ labels. labels) 2 long_series (long_series ∷ []) (new_graph (codes "q"))
      (omega arith) (refl, (refl, tt))
