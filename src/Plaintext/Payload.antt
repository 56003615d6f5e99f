-- ===== src/Plaintext/Payload.antt =====
-- The application bytes of a plaintext record, and the wrappers that are peeled off them:
-- cmd/plaintext_format.go, from `plaintextPayloadBytes` to `unwrapEmbeddedExportRecord`.
pub mod Unwrap
pub mod Objects
use netobserv_cli.Common.{
  ℕ, zero, suc, ◌+◌, ◌-◌, Bool, true, false, ◌&&◌, ◌||◌, List, [], ◌∷◌, Option, none, some, ◌==◌,
  if◌then◌else◌, not, any, length, take, drop, min,
}
use netobserv_cli.Text.{Bytes, codes, eq_bytes, is_empty, has_prefix, index, trim_space}
use netobserv_cli.GenericMap.{GenericMap, get, as_string}
use netobserv_cli.Extern.{Extern}

abbrev pub max_plaintext_unwrap_depth : ℕ
max_plaintext_unwrap_depth = 6

abbrev pub embedded_export_json_markers : List Bytes
embedded_export_json_markers =
    codes "{\"RecordType\":\"plaintext\""
    ∷ codes "{\"Direction\":\"write\""
    ∷ codes "{\"Direction\":\"read\""
    ∷ []

abbrev pub application_text_markers : List Bytes
application_text_markers =
    codes "GET "
    ∷ codes "POST "
    ∷ codes "PUT "
    ∷ codes "HEAD "
    ∷ codes "HTTP/"
    ∷ codes "DELETE "
    ∷ codes "OPTIONS "
    ∷ codes "PATCH "
    ∷ codes "CONNECT "
    ∷ codes "TRACE "
    ∷ codes "NETOBSERV-"
    ∷ codes "{"
    ∷ []

-- A decoded JSON object: its keys with the text of their values.
abbrev pub RawObject : Type 0
RawObject = List (Bytes × Bytes)

-- `obj[key]`; a missing key gives the empty text.
unfoldable pub raw_get : Bytes → RawObject → Bytes
raw_get key [] = []
raw_get key ((k, v) ∷ obj) = if eq_bytes k key then v else raw_get key obj

unfoldable pub raw_has : Bytes → RawObject → Bool
raw_has key [] = false
raw_has key ((k, v) ∷ obj) = eq_bytes k key || raw_has key obj

unfoldable pub plaintext_field_string : GenericMap → Bytes
plaintext_field_string m = as_string (get (codes "Plaintext") m)

unfoldable pub is_application_text_start : Bytes → Bool
unfolding any
is_application_text_start data' =
    if is_empty data'
    then false
    else any (λ marker. has_prefix marker data') application_text_markers

-- The rounds `skip = 1 … limit`: `n` rounds are left, and `rest` is what `skip - 1` bytes leave.
unfoldable pub skip_prefix : ℕ → Bytes → Bytes → Bytes
skip_prefix zero data' rest = data'
skip_prefix (suc n) data' rest =
    let next = skip_prefix n data' (drop 1 rest) in
    if is_application_text_start (drop 1 rest) then drop 1 rest else next

unfoldable pub strip_leading_application_prefix : Bytes → Bytes
unfolding skip_prefix
strip_leading_application_prefix data' =
    if is_empty data' || is_application_text_start data'
    then data'
    else skip_prefix (min 8 (length data' - 1)) data' data'

-- The end of the object that the scan is in, as the number of bytes read; the arguments are the
-- loop's `depth`, `inString`, `escape` and `i`.
unfoldable pub scan_object : ℕ → Bool → Bool → ℕ → Bytes → Option ℕ
scan_object depth in_string escape i [] = none
scan_object depth true true i (c ∷ s) = scan_object depth true false (suc i) s
scan_object depth true false i (c ∷ s) = scan_object depth (not (c == b'"')) (c == b'\\') (suc i) s
scan_object depth false escape i (c ∷ s) =
    let quoted = scan_object depth true escape (suc i) s in
    let deeper = scan_object (suc depth) false escape (suc i) s in
    let closed = scan_object (depth - 1) false escape (suc i) s in
    let next = scan_object depth false escape (suc i) s in
    if c == b'"'
    then quoted
    else if c == b'{'
    then deeper
    else if c == b'}'
    then if depth - 1 == 0 then some (suc i) else closed
    else next

-- The object text at `start`: balanced braces outside of quoted text.
unfoldable pub slice_json_object : Bytes → ℕ → Option Bytes
unfolding scan_object has_prefix
slice_json_object data' start =
    if has_prefix (codes "{") (drop start data')
    then elim (scan_object 0 false false 0 (drop start data')) [
      | none ↦ none
      | some n ↦ some (take n (drop start data'))
    ]
    else none

module _ (ext : Extern) where
  open ext use {decode_base64, json_object, json_string}

  -- The decoded text, empty on an error.
  unfoldable pub decode_or_empty : Bytes → Bytes
  decode_or_empty s = if is_empty s then [] else elim (decode_base64 s) [ none ↦ [] | some d ↦ d ]

  unfoldable pub json_raw_string : Bytes → Bytes
  json_raw_string raw =
      if is_empty raw then [] else elim (json_string raw) [ none ↦ [] | some s ↦ s ]

  unfoldable pub is_export_record_object : RawObject → Bool
  unfolding raw_get raw_has json_raw_string
  is_export_record_object obj =
      eq_bytes (json_raw_string (raw_get (codes "RecordType") obj)) (codes "plaintext")
      || raw_has (codes "Plaintext") obj && raw_has (codes "Direction") obj

  -- What an export record holds: its decoded `Plaintext`, or else its preview.
  unfoldable pub export_payload : RawObject → Bytes
  unfolding decode_or_empty
  export_payload obj =
      let decoded = decode_or_empty (json_raw_string (raw_get (codes "Plaintext") obj)) in
      if is_empty decoded then json_raw_string (raw_get (codes "PlaintextPreview") obj) else decoded

  unfoldable pub unwrap_export_json_object : Bytes → Bytes
  unfolding is_export_record_object export_payload
  unwrap_export_json_object obj_bytes = elim (json_object obj_bytes) [
    | none ↦ []
    | some obj ↦ if is_export_record_object obj then export_payload obj else []
  ]

  unfoldable pub unwrap_embedded_export_record : Bytes → Bytes
  unfolding unwrap_export_json_object
  unwrap_embedded_export_record data' =
      let trimmed = trim_space data' in
      let inner = unwrap_export_json_object trimmed in
      if has_prefix (codes "{") trimmed && not (is_empty inner) then inner else data'

  -- What the object at a position unwraps to, if that is a payload of its own.
  unfoldable pub object_payload : Bytes → ℕ → Option Bytes
  object_payload data' idx = elim (slice_json_object data' idx) [
    | none ↦ none
    | some obj_bytes ↦
        let inner = unwrap_export_json_object obj_bytes in
        if is_empty inner || eq_bytes inner obj_bytes then none else some inner
  ]

  -- The inner loop, from position `from`. `from` grows in each round, so a round for each byte and
  -- one more are enough.
  unfoldable pub search_marker : ℕ → Bytes → Bytes → ℕ → Option Bytes
  unfolding object_payload
  search_marker zero marker data' from = none
  search_marker (suc fuel) marker data' from = elim (index marker (drop from data')) [
    | none ↦ none
    | some i ↦ elim (object_payload data' (i + from)) [
      | some inner ↦ some inner
      | none ↦ search_marker fuel marker data' (i + from + 1)
    ]
  ]

  unfoldable pub search_markers : List Bytes → Bytes → Option Bytes
  search_markers [] data' = none
  search_markers (marker ∷ markers) data' = elim (search_marker (length data' + 1) marker data' 0) [
    | some inner ↦ some inner
    | none ↦ search_markers markers data'
  ]

  unfoldable pub extract_embedded_export_json : Bytes → Option Bytes
  unfolding search_markers search_marker
  extract_embedded_export_json data' = search_markers embedded_export_json_markers data'

  unfoldable pub unwrap_payload_layer : Bytes → Bytes
  unfolding unwrap_embedded_export_record extract_embedded_export_json
      strip_leading_application_prefix
  unwrap_payload_layer data' =
      let u = unwrap_embedded_export_record data' in
      if not (eq_bytes u data') then u else elim (extract_embedded_export_json data') [
        | some embedded ↦ embedded
        | none ↦ strip_leading_application_prefix data'
      ]

  -- At most so many layers, and no more once a round changes nothing.
  unfoldable pub unwrap_layers : ℕ → Bytes → Bytes
  unwrap_layers zero data' = data'
  unwrap_layers (suc n) data' =
      let next = unwrap_payload_layer data' in
      let deeper = unwrap_layers n next in if eq_bytes next data' then data' else deeper

  unfoldable pub unwrap_payload_layers : Bytes → Bytes
  unfolding unwrap_layers
  unwrap_payload_layers = unwrap_layers max_plaintext_unwrap_depth

  -- The captured TLS bytes: the decoded `Plaintext`, or else the preview. (`plaintextRawBytes`.)
  unfoldable pub plaintext_raw_bytes : GenericMap → Bytes
  unfolding plaintext_field_string decode_or_empty
  plaintext_raw_bytes m =
      let decoded = decode_or_empty (plaintext_field_string m) in
      if is_empty decoded then as_string (get (codes "PlaintextPreview") m) else decoded

  unfoldable pub plaintext_payload_bytes : GenericMap → Bytes
  unfolding plaintext_raw_bytes
  plaintext_payload_bytes m =
      let raw = plaintext_raw_bytes m in if is_empty raw then [] else unwrap_payload_layers raw
