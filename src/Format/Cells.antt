-- ===== src/Format/Cells.antt =====
-- The text of a cell, by its column.
use netobserv_cli.Common.{
  ℕ, ◌+◌, ◌*◌, ◌^◌, Bool, true, false, ◌&&◌, not, List, [], ◌∷◌, ◌++◌, Option, none, some, ◌==◌,
  if◌then◌else◌, any,
}
use netobserv_cli.Common.Int.{ℤ, sub_ℕ, pos_part, neg_part}
use netobserv_cli.Text.{Bytes, codes, eq_bytes, is_empty, join, contains}
use netobserv_cli.GenericMap.{
  GenericMap, Value, Float, Items, null, str, float64, slice, item, nil, lookup, truncate,
}
use netobserv_cli.Extern.{Extern}
use netobserv_cli.Session.{is_plaintext_record}
use netobserv_cli.Plaintext.Annotation.{plaintext_table_preview}
use netobserv_cli.Display.Order.{Capture}
use netobserv_cli.Display.Options.{raw_display}
use netobserv_cli.Format.{ellipsize_and_pad}
use netobserv_cli.Format.Names.{protocol_names, dscp_names}

-- What the texts take from packages that are not in the repository.
pub record Printers : Type 0 where
  -- `sizestr.ToString`.
  pub size_string : ℤ → Bytes
  -- `time.Duration.String`, of nanoseconds.
  pub duration_string : ℤ → Bytes
  -- `time.UnixMilli(ms).Format("15:04:05.000000")`.
  pub time_string : ℤ → Bytes
  -- `networkevents.MapToStrings`.
  pub network_events : GenericMap → List Bytes
  -- `fmt.Sprintf("%v", m)` of a map.
  pub print_map : GenericMap → Bytes
  -- `replacer.Replace`, which shortens long words.
  pub shorten : Bytes → Bytes

-- `ColumnConfig`, the fields that the code reads.
pub record ColumnConfig : Type 0 where
  pub id : Bytes
  pub name : Bytes
  pub group : Bytes
  pub field : Bytes
  pub default : Bool
  pub width : ℕ
  pub feature : Bytes

abbrev pub empty_text : Bytes
empty_text = codes "n/a"

abbrev pub default_extra_width : ℕ
default_extra_width = 5

-- A field's text: "n/a" where it is missing, and `none` where a type assertion fails.
unfoldable pub text_of : (Value → Option Bytes) → Option Value → Option Bytes
text_of f none = some empty_text
text_of f (some v) = f v

-- The text of a `float64`.
unfoldable pub float_text : (Float → Bytes) → Value → Option Bytes
float_text f (float64 v) = some (f v)
float_text f _ = none

-- `switch v { case n: … }` on a `float64`.
unfoldable pub float_is : Float → ℕ → Bool
float_is v n = pos_part v.num == n * 2 ^ v.scale && neg_part v.num == 0

unfoldable pub name_of : Float → List (ℕ × Bytes) → Option Bytes
unfolding float_is
name_of v [] = none
name_of v ((n, name) ∷ names) =
    let later = name_of v names in if float_is v n then some name else later

-- An integer times a factor.
unfoldable pub times : ℕ → ℤ → ℤ
times n i = sub_ℕ (n * pos_part i) (n * neg_part i)

-- `slices.IndexFunc(cfg.Columns, …)`, and the column there.
unfoldable pub find_column : (ColumnConfig → Bool) → List ColumnConfig → Option ColumnConfig
find_column p [] = none
find_column p (col ∷ columns) =
    let later = find_column p columns in if p col then some col else later

unfoldable pub with_id : Bytes → ColumnConfig → Bool
unfolding eq_bytes
with_id i col = eq_bytes col.id i

unfoldable pub all_texts : (Value → Option Bytes) → Items → Option (List Bytes)
all_texts f nil = some []
all_texts f (item v vs) = elim (f v) [
  | none ↦ none
  | some t ↦ elim (all_texts f vs) [ none ↦ none | some ts ↦ some (t ∷ ts) ]
]

unfoldable pub join_texts : Option (List Bytes) → Option Bytes
join_texts none = none
join_texts (some texts) = some (join b',' texts)

-- `strings.Join(events, ", ")`.
unfoldable pub join_events : List Bytes → Bytes
join_events [] = []
join_events (e ∷ []) = e
join_events (e ∷ f ∷ es) = e ++ codes ", " ++ join_events (f ∷ es)

module _ (ext : Extern) (printers : Printers) (columns : List ColumnConfig)
    (capture : Capture) where
  open ext use {print_value}
  open printers use {size_string, duration_string, time_string, network_events, print_map, shorten}

  unfoldable pub to_count : GenericMap → Bytes → Option Bytes
  unfolding text_of float_text truncate
  to_count m field_name = text_of (float_text (λ v. size_string (truncate v))) (lookup field_name m)

  -- The factor is in nanoseconds.
  unfoldable pub to_duration : GenericMap → Bytes → ℕ → Option Bytes
  unfolding text_of float_text truncate times
  to_duration m field_name factor =
      text_of (float_text (λ v. duration_string (times factor (truncate v)))) (lookup field_name m)

  unfoldable pub direction_value : Float → Bytes
  unfolding float_is
  direction_value v =
      if float_is v 0
      then codes "Ingress"
      else if float_is v 1
      then codes "Egress"
      else if float_is v 2
      then codes "Inner"
      else print_value (float64 v)

  -- The `reflect.Kind` of nil fails.
  unfoldable pub direction_text : Value → Option Bytes
  unfolding float_text direction_value join_texts all_texts
  direction_text (slice vs) = join_texts (all_texts (float_text direction_value) vs)
  direction_text v = float_text direction_value v

  unfoldable pub to_direction : GenericMap → Bytes → Option Bytes
  unfolding text_of direction_text
  to_direction m field_name = text_of direction_text (lookup field_name m)

  -- A name from a table, or else the number.
  unfoldable pub named : List (ℕ × Bytes) → Float → Bytes
  unfolding name_of
  named names v = elim (name_of v names) [ none ↦ print_value (float64 v) | some name ↦ name ]

  unfoldable pub to_proto : GenericMap → Bytes → Option Bytes
  unfolding text_of float_text named
  to_proto m field_name = text_of (float_text (named protocol_names)) (lookup field_name m)

  unfoldable pub to_dscp : GenericMap → Bytes → Option Bytes
  unfolding text_of float_text named
  to_dscp m field_name = text_of (float_text (named dscp_names)) (lookup field_name m)

  -- An element of a slice: an empty text is "None".
  unfoldable pub element_text : Value → Option Bytes
  element_text (str s) = some (if is_empty s then codes "None" else s)
  element_text v = some (print_value v)

  unfoldable pub value_text : Value → Option Bytes
  unfolding join_texts all_texts element_text
  value_text (slice vs) = join_texts (all_texts element_text vs)
  value_text null = none
  value_text v = some (print_value v)

  unfoldable pub to_value : GenericMap → Bytes → Option Bytes
  unfolding text_of value_text
  to_value m field_name = text_of value_text (lookup field_name m)

  unfoldable pub to_time_string : GenericMap → Bytes → Option Bytes
  unfolding text_of float_text truncate
  to_time_string m field_name =
      text_of (float_text (λ v. time_string (truncate v))) (lookup field_name m)

  unfoldable pub to_field_name : Bytes → Bytes
  unfolding find_column with_id
  to_field_name i = elim (find_column (with_id i) columns) [ none ↦ [] | some col ↦ col.field ]

  unfoldable pub to_col_width : Bytes → ℕ
  unfolding find_column with_id eq_bytes
  to_col_width i = if eq_bytes i raw_display then 0 else elim (find_column (with_id i) columns) [
    | none ↦ 6 + default_extra_width
    | some col ↦ col.width + default_extra_width
  ]

  unfoldable pub to_col_id : Bytes → Bytes
  unfolding find_column eq_bytes
  to_col_id field = elim (find_column (λ col. eq_bytes col.field field) columns) [
    | none ↦ []
    | some col ↦ col.id
  ]

  unfoldable pub column_name : ColumnConfig → Bytes
  unfolding contains
  column_name col =
      if not (is_empty col.group) && not (contains col.group col.name)
      then col.group ++ codes " " ++ col.name
      else col.name

  -- The name of the column that was found, or the id.
  unfoldable pub name_or : Bytes → Option ColumnConfig → Bytes
  unfolding column_name
  name_or i none = i
  name_or i (some col) = column_name col

  unfoldable pub to_col_name : Bytes → ℕ → Bytes
  unfolding ellipsize_and_pad name_or find_column with_id
  to_col_name i width =
      ellipsize_and_pad (shorten (name_or i (find_column (with_id i) columns))) width

  -- The first text, or the second where it is empty.
  unfoldable pub text_or : Option Bytes → Option Bytes → Option Bytes
  text_or none second = none
  text_or (some s) second = if is_empty s then second else some s

  unfoldable pub is_flow_capture : Capture → Bool
  is_flow_capture Capture.flows = true
  is_flow_capture _ = false

  -- The text of a column before it is cut.
  unfoldable pub column_text : GenericMap → Bytes → ℕ → Option Bytes
  unfolding eq_bytes to_time_string to_direction to_proto to_dscp to_count to_duration to_value
      text_or is_plaintext_record plaintext_table_preview is_flow_capture to_field_name
  column_text m i width =
      let field_name = to_field_name i in
      if eq_bytes i raw_display
      then some (print_map m)
      else if any (eq_bytes i) (codes "StartTime" ∷ codes "EndTime" ∷ [])
      then to_time_string m
          (if is_flow_capture capture then codes "TimeFlowEndMs" else codes "Time")
      else if any (eq_bytes i) (codes "FlowDirection" ∷ codes "IfDirections" ∷ [])
      then to_direction m field_name
      else if eq_bytes i (codes "Proto")
      then to_proto m field_name
      else if eq_bytes i (codes "Dscp")
      then to_dscp m field_name
      else if eq_bytes i (codes "Bytes")
      then to_count m (codes "Bytes")
      else if eq_bytes i (codes "PktDropBytes")
      then to_count m (codes "PktDropBytes")
      else if eq_bytes i (codes "DNSLatency")
      then to_duration m field_name 1_000_000
      else if eq_bytes i (codes "TimeFlowRttMs")
      then to_duration m field_name 1
      else if eq_bytes i (codes "NetworkEvents")
      then some (join_events (network_events m))
      else if eq_bytes i (codes "RecordType")
      then text_or (to_value m (if is_plaintext_record m then codes "TLSSource" else field_name))
          (to_value m (codes "RecordType"))
      else if eq_bytes i (codes "Direction")
      then to_value m (codes "Direction")
      else if eq_bytes i (codes "PlaintextPreview")
      then if is_plaintext_record m
        then some (plaintext_table_preview ext m width)
        else to_value m (codes "PlaintextPreview")
      else to_value m field_name

  unfoldable pub pad_text : ℕ → Option Bytes → Option Bytes
  unfolding ellipsize_and_pad
  pad_text width none = none
  pad_text width (some s) = some (ellipsize_and_pad s width)

  -- `toColValue`.
  unfoldable pub to_col_value : GenericMap → Bytes → ℕ → Option Bytes
  unfolding column_text pad_text
  to_col_value m i width = pad_text width (column_text m i width)
