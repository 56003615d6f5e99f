-- ===== src/Display/Columns.antt =====
-- The columns of the table: `getCols`, `appendPlaintextColumns`, `plaintextCaptureColumnIDs` and the
-- choice of columns in `getColumnsModal`, of cmd/flow_display.go.
pub mod Laws
use netobserv_cli.Common.{
  ℕ, Bool, true, false, ◌&&◌, ◌||◌, not, List, [], ◌∷◌, ◌++◌, Option, none, some, any, filter, map,
  if◌then◌else◌, get_elem?,
}
use netobserv_cli.Text.{Bytes, codes, eq_bytes, is_empty}
use netobserv_cli.Format.Cells.{ColumnConfig}
use netobserv_cli.Display.Order.{Capture}
use netobserv_cli.Display.Flows.{is_packets}
use netobserv_cli.Display.Options.{
  OptionItem, raw_display, standard_display, no_options, plaintext_capture_feature,
}

-- `slices.Contains(ids, id)`.
unfoldable pub contains_id : Bytes → List Bytes → Bool
unfolding any eq_bytes
contains_id i ids = any (λ j. eq_bytes j i) ids

module _ (columns : List ColumnConfig) (capture : Capture) (tls : Bool) where
  unfoldable pub plaintext_capture_column_ids : List Bytes
  unfolding eq_bytes
  plaintext_capture_column_ids =
      map (λ (col : ColumnConfig). col.id)
        (filter (λ col. eq_bytes col.feature plaintext_capture_feature && not (is_empty col.field))
          columns)

  -- The loop that appends what is not there yet.
  unfoldable pub append_new : List Bytes → List Bytes → List Bytes
  unfolding contains_id
  append_new cols [] = cols
  append_new cols (i ∷ ids) = append_new (if contains_id i cols then cols else cols ++ i ∷ []) ids

  unfoldable pub append_plaintext_columns : List Bytes → List Bytes → List Bytes
  unfolding append_new plaintext_capture_column_ids is_packets
  append_plaintext_columns selected cols =
      if not (is_packets capture) || not tls
      then cols
      else if not (is_empty selected)
      then cols
      else append_new cols (codes "RecordType" ∷ plaintext_capture_column_ids)

  -- The columns of the features of a display.
  unfoldable pub feature_columns : List Bytes → List Bytes
  unfolding contains_id
  feature_columns features =
      map (λ (col : ColumnConfig). col.id)
        (filter (λ col. not (is_empty col.field) && contains_id col.feature features) columns)

  -- The columns before the plaintext ones, for a display and an enrichment.
  unfoldable pub base_cols : List Bytes → OptionItem → OptionItem → List Bytes
  unfolding eq_bytes feature_columns
  base_cols selected display enrichment =
      if not (is_empty selected)
      then selected
      else if eq_bytes display.name raw_display
      then raw_display ∷ []
      else codes "EndTime" ∷ []
        ++ (if not (eq_bytes enrichment.name no_options)
            then enrichment.ids
            else codes "SrcAddr" ∷ codes "SrcPort" ∷ codes "DstAddr" ∷ codes "DstPort" ∷ [])
        ++ codes "Interfaces" ∷ codes "IfDirections" ∷ []
        ++ (if not (eq_bytes display.name standard_display)
            then feature_columns display.ids
            else codes "FlowDirection"
              ∷ codes "Proto"
              ∷ codes "Dscp"
              ∷ codes "Bytes"
              ∷ codes "Packets"
              ∷ [])

  -- `getCols`.
  unfoldable pub get_cols : List Bytes → OptionItem → OptionItem → List Bytes
  unfolding append_plaintext_columns base_cols
  get_cols selected display enrichment =
      append_plaintext_columns selected (base_cols selected display enrichment)

  -- The columns that can be chosen.
  unfoldable pub available_columns : List ColumnConfig
  unfolding eq_bytes is_packets
  available_columns =
      filter
        (λ col.
          not (is_empty col.field)
          && not (
              eq_bytes col.feature plaintext_capture_feature
              && (not (is_packets capture) || not tls)))
        columns

  -- Takes the id out where it stands first; `none` if it does not stand there.
  unfoldable pub remove_id : Bytes → List Bytes → Option (List Bytes)
  unfolding eq_bytes
  remove_id i [] = none
  remove_id i (j ∷ ids) =
      if eq_bytes j i
      then some ids
      else elim (remove_id i ids) [ none ↦ none | some rest ↦ some (j ∷ rest) ]

  -- Chosen columns are let go, others are added at the end.
  unfoldable pub toggle : Bytes → List Bytes → List Bytes
  unfolding remove_id
  toggle i selected = elim (remove_id i selected) [ none ↦ selected ++ i ∷ [] | some rest ↦ rest ]

  -- `onSelect`.
  unfoldable pub on_select : Option ColumnConfig → List Bytes → List Bytes
  unfolding toggle
  on_select none selected = selected
  on_select (some col) selected = toggle col.id selected

  unfoldable pub select_row : ℕ → List Bytes → List Bytes
  unfolding on_select available_columns
  select_row row selected = on_select (get_elem? available_columns row) selected

  -- "Restore defaults".
  unfoldable pub default_columns : List Bytes
  unfolding available_columns
  default_columns =
      map (λ (col : ColumnConfig). col.id) (filter (λ col. col.default) available_columns)
