-- ===== src/Format/Failures.antt =====
-- When the text of a cell can be made: where a type assertion fails, the program ends.
use netobserv_cli.Common.{
  ℕ, ◌≡◌, ◌≢◌, ◌↔◌, refl, ap, Bool, true, false, List, [], ◌∷◌, Option, none, some, ◌∙◌, All, any,
  arith, if◌then◌else◌,
}
use netobserv_cli.Text.{Bytes, codes, eq_bytes, is_empty}
use netobserv_cli.GenericMap.{
  GenericMap, Value, Items, null, str, slice, nil, item, lookup, Float, float64,
}
use netobserv_cli.Extern.{Extern}
use netobserv_cli.Display.Order.{Capture}
use netobserv_cli.Format.Cells.{
  Printers, ColumnConfig, to_value, value_text, element_text, text_of, all_texts, join_texts,
  float_text, direction_text, to_field_name, text_or, column_text, to_time_string, to_direction,
  to_proto, is_flow_capture, join_events, to_dscp, to_count, to_duration, to_col_value, pad_text,
}
use netobserv_cli.Session.{is_plaintext_record}
use netobserv_cli.Plaintext.Annotation.{plaintext_table_preview}
use netobserv_cli.Display.Options.{raw_display}
use netobserv_cli.Format.{ellipsize_and_pad}

module _ (ext : Extern) (printers : Printers) (columns : List ColumnConfig)
    (capture : Capture) where
  all_texts-some :
      (f : Value → Option Bytes)
      → ((v : Value) → (t : Bytes) × (f v ≡ some t))
      → (vs : Items) → (ts : List Bytes) × (all_texts f vs ≡ some ts)
  unfolding all_texts
  all_texts-some f total nil = ([], refl)
  all_texts-some f total (item v vs) =
      let (t, e) = total v in
      let (ts, es) = all_texts-some f total vs in
      (
        t ∷ ts,
        ap
              (λ (o : Option Bytes). elim o as (λ _. Option (List Bytes)) [
                | none ↦ none
                | some t ↦ elim (all_texts f vs) [ none ↦ none | some ts ↦ some (t ∷ ts) ]
              ])
              e
            ∙ ap
                (λ (o : Option (List Bytes)). elim o as (λ _. Option (List Bytes)) [
                  | none ↦ none
                  | some ts ↦ some (t ∷ ts)
                ])
                es,
      )

  element_text-some :
      (v : Value) → (t : Bytes) × (element_text ext printers columns capture v ≡ some t)
  unfolding element_text
  element_text-some (str s) = (_, refl)
  element_text-some _ = (_, refl)

  value_text-null : (v : Value) → value_text ext printers columns capture v ≡ none → v ≡ null
  unfolding value_text join_texts
  value_text-null null h = refl
  value_text-null (slice vs) h =
      let (ts, e) = all_texts-some _ element_text-some vs in absurd (cc (h, e))
  value_text-null _ h = absurd (cc h)

  -- The text of a field fails to be made for exactly the fields that are JSON's null.
  to_value_fails_iff :
      (m : GenericMap) (field_name : Bytes)
      → (to_value ext printers columns capture m field_name ≡ none)
        ↔ (lookup field_name m ≡ some null)
  unfolding to_value text_of value_text
  to_value_fails_iff m field_name = (
    λ h. by_field (lookup field_name m) h,
    λ e. ap (text_of (value_text ext printers columns capture)) e,
  )
    where
      by_field :
          (v : Option Value)
          → text_of (value_text ext printers columns capture) v ≡ none
          → v ≡ some null
      by_field none h = absurd (cc h)
      by_field (some v) h = ap some (value_text-null v h)

  -- A text is there.
  abbrev HasText : Option Bytes → Type 0
  HasText o = (t : Bytes) × (o ≡ some t)

  by_test :
      (b : Bool) (x y : Option Bytes)
      → (b ≡ true → HasText x)
      → HasText y
      → HasText (if b then x else y)
  by_test true x y hx hy = hx refl
  by_test false x y hx hy = hy

  -- The field is missing or a number, which JSON decodes into a `float64`.
  abbrev pub IsNumberOrMissing : Option Value → Type 0
  IsNumberOrMissing none = Unit
  IsNumberOrMissing (some (float64 v)) = Unit
  IsNumberOrMissing (some _) = ⊥

  number-HasText :
      (f : Float → Bytes) (v : Option Value)
      → IsNumberOrMissing v
      → HasText (text_of (float_text f) v)
  unfolding text_of float_text
  number-HasText f none h = (_, refl)
  number-HasText f (some (float64 v)) h = (_, refl)
  number-HasText f (some _) h = absurd h

  direction-HasText :
      (v : Option Value)
      → IsNumberOrMissing v
      → HasText (text_of (direction_text ext printers columns capture) v)
  unfolding text_of direction_text float_text
  direction-HasText none h = (_, refl)
  direction-HasText (some (float64 v)) h = (_, refl)
  direction-HasText (some _) h = absurd h

  -- The columns whose field is formatted as a number.
  abbrev pub number_columns : List Bytes
  number_columns =
      codes "FlowDirection"
      ∷ codes "IfDirections"
      ∷ codes "Proto"
      ∷ codes "Dscp"
      ∷ codes "DNSLatency"
      ∷ codes "TimeFlowRttMs"
      ∷ []

  to_value-HasText :
      (m : GenericMap) (field_name : Bytes)
      → lookup field_name m ≢ some null
      → HasText (to_value ext printers columns capture m field_name)
  to_value-HasText m field_name h =
      by_text (to_value ext printers columns capture m field_name)
        (to_value_fails_iff m field_name).0
    where
      by_text : (o : Option Bytes) → (o ≡ none → lookup field_name m ≡ some null) → HasText o
      by_text none k = absurd (h (k refl))
      by_text (some t) k = (t, refl)

  text_or-HasText :
      (o second : Option Bytes)
      → HasText o
      → HasText second
      → HasText (text_or ext printers columns capture o second)
  unfolding text_or
  text_or-HasText none second h k = absurd (cc h.1)
  text_or-HasText (some s) second h k = by_test (is_empty s) second (some s) (λ _. k) (s, refl)

  module _ (m : GenericMap) (i : Bytes) (width : ℕ)
      (no_null : (field : Bytes) → lookup field m ≢ some null)
      (numbers : All
        (λ field. IsNumberOrMissing (lookup field m))
        (codes "TimeFlowEndMs" ∷ codes "Time" ∷ codes "Bytes" ∷ codes "PktDropBytes" ∷ []))
      (number : any (eq_bytes i) number_columns ≡ true
        → IsNumberOrMissing (lookup (to_field_name ext printers columns capture i) m)) where
    time-HasText :
        (b : Bool)
        → HasText (
            to_time_string ext printers columns capture m
              (if b then codes "TimeFlowEndMs" else codes "Time"))
    unfolding to_time_string
    time-HasText true = number-HasText _ _ numbers.0
    time-HasText false = number-HasText _ _ numbers.1.0

    abbrev shown_field : Bytes
    shown_field = to_field_name ext printers columns capture i

    a_text : (t : Bytes) → HasText (some t)
    a_text t = (t, refl)

    plain : (f : Bytes) → HasText (to_value ext printers columns capture m f)
    plain f = to_value-HasText m f (no_null f)

    type-HasText :
        (b : Bool)
        → HasText (
            text_or ext printers columns capture
              (to_value ext printers columns capture m
                (if b then codes "TLSSource" else shown_field))
              (to_value ext printers columns capture m (codes "RecordType")))
    type-HasText b = text_or-HasText _ _ (plain _) (plain (codes "RecordType"))

    preview-HasText :
        (b : Bool)
        → HasText (
            if b
            then some (plaintext_table_preview ext m width)
            else to_value ext printers columns capture m (codes "PlaintextPreview"))
    preview-HasText true = a_text (plaintext_table_preview ext m width)
    preview-HasText false = plain (codes "PlaintextPreview")

    column_text-HasText : HasText (column_text ext printers columns capture m i width)
    unfolding column_text any to_time_string to_direction to_proto to_dscp to_count to_duration
    column_text-HasText =
        by_test (eq_bytes i raw_display) _ _ (λ _. a_text (printers.print_map m))
          (by_test (any (eq_bytes i) (codes "StartTime" ∷ codes "EndTime" ∷ [])) _ _
            (λ _. time-HasText (is_flow_capture ext printers columns capture capture))
            (by_test (any (eq_bytes i) (codes "FlowDirection" ∷ codes "IfDirections" ∷ []))
              (to_direction ext printers columns capture m shown_field) _
              (λ e. direction-HasText _ (number (ground (arith, e))))
              (by_test (eq_bytes i (codes "Proto"))
                (to_proto ext printers columns capture m shown_field) _
                (λ e. number-HasText _ _ (number (ground (arith, e))))
                (by_test (eq_bytes i (codes "Dscp"))
                  (to_dscp ext printers columns capture m shown_field) _
                  (λ e. number-HasText _ _ (number (ground (arith, e))))
                  (by_test (eq_bytes i (codes "Bytes"))
                    (to_count ext printers columns capture m (codes "Bytes")) _
                    (λ _. number-HasText _ _ numbers.1.1.0)
                    (by_test (eq_bytes i (codes "PktDropBytes"))
                      (to_count ext printers columns capture m (codes "PktDropBytes")) _
                      (λ _. number-HasText _ _ numbers.1.1.1.0)
                      (by_test (eq_bytes i (codes "DNSLatency"))
                        (to_duration ext printers columns capture m shown_field 1_000_000) _
                        (λ e. number-HasText _ _ (number (ground (arith, e))))
                        (by_test (eq_bytes i (codes "TimeFlowRttMs"))
                          (to_duration ext printers columns capture m shown_field 1) _
                          (λ e. number-HasText _ _ (number (ground (arith, e))))
                          (by_test (eq_bytes i (codes "NetworkEvents")) _ _
                            (λ _. a_text (join_events (printers.network_events m)))
                            (by_test (eq_bytes i (codes "RecordType")) _ _
                              (λ _. type-HasText (is_plaintext_record m))
                              (by_test (eq_bytes i (codes "Direction")) _ _
                                (λ _. plain (codes "Direction"))
                                (by_test (eq_bytes i (codes "PlaintextPreview")) _ _
                                  (λ _. preview-HasText (is_plaintext_record m))
                                  (plain shown_field)))))))))))))

    -- The text of a cell can be made in every column, if no field is JSON's null, the times and the
    -- bytes of the flow are numbers or missing, and so is the field of a column that shows a number.
    pub to_col_value-returns :
        (t : Bytes) × (to_col_value ext printers columns capture m i width ≡ some t)
    unfolding to_col_value pad_text
    to_col_value-returns =
        let (t, e) = column_text-HasText in
        (ellipsize_and_pad t width, ap (pad_text ext printers columns capture width) e)
