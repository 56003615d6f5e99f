-- ===== src/Plaintext/Annotation.antt =====
-- What is written of a plaintext record: its summary in the table (`plaintextTablePreview`,
-- `plaintextBinarySummary` of cmd/plaintext_format.go), its time and its PCAP comment
-- (cmd/packet_capture_plaintext.go).
use netobserv_cli.Common.{ℕ, ◌*◌, ◌&&◌, [], ◌∷◌, ◌++◌, Option, none, some, if◌then◌else◌, length}
use netobserv_cli.Common.Int.{ℤ, pos, negsuc, pos_part}
use netobserv_cli.Text.{Bytes, codes, is_empty}
use netobserv_cli.Text.Numbers.{format_uint}
use netobserv_cli.GenericMap.{
  GenericMap, Value, float64, int, int64, lookup, get, as_string, truncate, positive,
}
use netobserv_cli.Extern.{Extern}
use netobserv_cli.Endpoints.{map_port_from_generic}
use netobserv_cli.Plaintext.Payload.{plaintext_payload_bytes}
use netobserv_cli.Plaintext.Display.{plaintext_preview_for_display, format_plaintext_payload}

-- A `time.Time` in nanoseconds since 1970; the zero time is `none`.
abbrev pub Time : Type 0
Time = Option ℕ

-- `t, ok := v.(float64); ok && t > 0`, and then `int64(t)`, which is not negative.
unfoldable pub positive_float : Value → Option ℕ
unfolding positive truncate
positive_float (float64 v) = if positive v.num then some (pos_part (truncate v)) else none
positive_float _ = none

unfoldable pub plaintext_timestamp : GenericMap → Time
unfolding positive_float
plaintext_timestamp m = elim (positive_float (get (codes "TimeFlowStartMs") m)) [
  | some ms ↦ some (ms * 1_000_000)
  | none ↦ elim (positive_float (get (codes "Time") m)) [
    | some s ↦ some (s * 1_000_000_000)
    | none ↦ none
  ]
]

-- `%d` of an integer.
unfoldable pub format_int : ℤ → Bytes
unfolding format_uint
format_int (pos n) = format_uint n
format_int (negsuc n) = b'-' ∷ format_uint (ℕ.suc n)

unfoldable pub plaintext_five_tuple_line : GenericMap → Bytes
unfolding format_uint
plaintext_five_tuple_line m =
    let src = as_string (get (codes "SrcAddr") m) in
    let dst = as_string (get (codes "DstAddr") m) in
    let plain = src ++ codes " -> " ++ dst in
    if is_empty src && is_empty dst then [] else elim (map_port_from_generic m (codes "SrcPort")) [
      | none ↦ plain
      | some sp ↦ elim (map_port_from_generic m (codes "DstPort")) [
        | none ↦ plain
        | some dp ↦
            src ++ codes ":" ++ format_uint sp ++ codes " -> " ++ dst ++ codes ":" ++ format_uint dp
      ]
    ]

-- A line of the comment, where there is something to say.
unfoldable pub labelled : Bytes → Bytes → Bytes
labelled label text = if is_empty text then [] else label ++ text ++ codes "\n"

-- The value of `PlaintextLen`, or else the payload's length.
unfoldable pub len_of_value : Value → ℕ → ℤ
unfolding truncate
len_of_value (float64 v) n = truncate v
len_of_value (int v) n = v
len_of_value (int64 v) n = v
len_of_value _ n = pos n

module _ (ext : Extern) where
  open ext use {print_value}

  unfoldable pub plaintext_len : GenericMap → ℤ
  unfolding len_of_value
  plaintext_len m =
      len_of_value (get (codes "PlaintextLen") m) (length (plaintext_payload_bytes ext m))

  unfoldable pub plaintext_binary_summary : GenericMap → Bytes
  unfolding plaintext_len format_int
  plaintext_binary_summary m =
      let s = as_string (get (codes "TLSSource") m) in
      let src = if is_empty s then codes "tls" else s in
      let dir = as_string (get (codes "Direction") m) in
      let size = format_int (plaintext_len m) ++ codes "B binary>" in
      if is_empty dir
      then codes "<" ++ src ++ codes " " ++ size
      else codes "<" ++ src ++ codes " " ++ dir ++ codes " " ++ size

  unfoldable pub plaintext_table_preview : GenericMap → ℕ → Bytes
  unfolding plaintext_binary_summary
  plaintext_table_preview m max_len =
      let p = plaintext_preview_for_display ext m max_len in
      if is_empty p then plaintext_binary_summary m else p

  -- The payload, or else the preview, behind a rule.
  unfoldable pub annotation_body : GenericMap → Bytes
  annotation_body m =
      let preview = as_string (get (codes "PlaintextPreview") m) in
      let payload = plaintext_payload_bytes ext m in
      if is_empty preview
      then []
      else codes "---\n"
        ++ (if is_empty payload then preview else format_plaintext_payload ext payload)

  unfoldable pub pid_line : GenericMap → Bytes
  pid_line m = elim (lookup (codes "Pid") m) [
    | none ↦ []
    | some pid ↦ codes "Pid: " ++ print_value pid ++ codes "\n"
  ]

  unfoldable pub plaintext_annotation_comment : GenericMap → ℕ → Bytes
  unfolding labelled plaintext_five_tuple_line pid_line annotation_body format_uint
  plaintext_annotation_comment m id =
      codes "TLS Plaintext (PacketID: "
      ++ format_uint id
      ++ codes ")\n"
      ++ labelled (codes "Direction: ") (as_string (get (codes "Direction") m))
      ++ labelled (codes "TLSSource: ") (as_string (get (codes "TLSSource") m))
      ++ labelled (codes "5-tuple: ") (plaintext_five_tuple_line m)
      ++ pid_line m
      ++ annotation_body m
