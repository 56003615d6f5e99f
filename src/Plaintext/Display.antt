-- ===== src/Plaintext/Display.antt =====
-- The text that the display shows for a payload: cmd/plaintext_format.go, the extraction of HTTP and
-- JSON bodies, `formatPlaintextPayload`, the previews and `plaintextDisplayString`.
pub mod Laws
use netobserv_cli.Common.{
  ℕ, zero, suc, ◌+◌, ◌-◌, ◌/◌, ◌%◌, Bool, false, ◌&&◌, ◌||◌, List, [], ◌∷◌, ◌++◌, Option, none,
  some, ltb, leb, ◌==◌, if◌then◌else◌, not, is_some, any, length, take, drop, get_elem?,
}
use netobserv_cli.Common.Int.{ℤ, negsuc, ltb_ℤ}
use netobserv_cli.Text.{Bytes, codes, eq_bytes, is_empty, has_prefix, index, trim_space, rune_start}
use netobserv_cli.Text.Utf8.{decode_rune, to_valid_utf8, width_or_one}
use netobserv_cli.GenericMap.{GenericMap, str, put}
use netobserv_cli.Extern.{Extern}
use netobserv_cli.Plaintext.Payload.{
  RawObject, raw_get, json_raw_string, is_export_record_object, unwrap_payload_layers,
  plaintext_payload_bytes,
}
use netobserv_cli.Plaintext.Noise.{
  is_noise_payload, is_garbage_display, looks_like_structured_json, looks_like_base64_blob,
  printable_text_score,
}

-- What stands behind the first place of `mark`, if it stands anywhere.
unfoldable pub after_mark : Bytes → Bytes → Option Bytes
unfolding index
after_mark mark data' = elim (index mark data') [
  | none ↦ none
  | some i ↦ some (drop (i + length mark) data')
]

unfoldable pub extract_http_body : Bytes → Bytes
unfolding after_mark has_prefix
extract_http_body data' =
    if has_prefix (codes "HTTP/") data'
    then elim (after_mark (codes "\r\n\r\n") data') [
      | some body ↦ body
      | none ↦ elim (after_mark (codes "\n\n") data') [ some body ↦ body | none ↦ data' ]
    ]
    else data'

-- What stands before the first place of `mark`, if that is not the start.
unfoldable pub before_mark : Bytes → Bytes → Option Bytes
unfolding index
before_mark mark data' = elim (index mark data') [
  | none ↦ none
  | some i ↦ if ltb 0 i then some (take i data') else none
]

unfoldable pub starts_request : Bytes → Bool
starts_request [] = false
starts_request (c ∷ s) =
    c == b'G' || c == b'P' || c == b'H' || c == b'D' || c == b'C' || c == b'O' || c == b'T'

-- The trimmed line before the first newline, if it has a blank in it.
unfoldable pub request_line : Bytes → Option Bytes
unfolding before_mark trim_space
request_line data' = elim (before_mark (codes "\n") data') [
  | none ↦ none
  | some l ↦
      let line = trim_space l in if is_some (before_mark (codes " ") line) then some line else none
]

unfoldable pub extract_http_request_line : Bytes → Bytes
unfolding starts_request request_line
extract_http_request_line data' =
    if starts_request data'
    then elim (request_line data') [
      | some line ↦ line
      | none ↦ elim (before_mark (codes "\r\n") data') [ some l ↦ trim_space l | none ↦ data' ]
    ]
    else data'

abbrev pub plaintext_json_text_keys : List Bytes
plaintext_json_text_keys =
    codes "text"
    ∷ codes "message"
    ∷ codes "msg"
    ∷ codes "body"
    ∷ codes "content"
    ∷ codes "data"
    ∷ codes "response"
    ∷ codes "result"
    ∷ codes "error"
    ∷ []

abbrev pub plaintext_json_skip_keys : List Bytes
plaintext_json_skip_keys =
    codes "RecordType"
    ∷ codes "Direction"
    ∷ codes "TLSSource"
    ∷ codes "Protocol"
    ∷ codes "SSLType"
    ∷ codes "Time"
    ∷ codes "TimeFlowStartMs"
    ∷ codes "Pid"
    ∷ codes "Tgid"
    ∷ codes "SrcAddr"
    ∷ codes "DstAddr"
    ∷ codes "SrcPort"
    ∷ codes "DstPort"
    ∷ codes "PlaintextLen"
    ∷ codes "PacketID"
    ∷ codes "PcapAnnotated"
    ∷ []

-- The largest position at or under `n` at which a rune starts, 0 at least.
unfoldable pub cut_back : Bytes → ℕ → ℕ
unfolding rune_start
cut_back s zero = zero
cut_back s (suc n) =
    let earlier = cut_back s n in
    elim (get_elem? s (suc n)) [ none ↦ earlier | some b ↦ if rune_start b then suc n else earlier ]

-- `maxLen <= 0` is 0.
unfoldable pub ellipsize_plaintext_display : Bytes → ℕ → Bytes
unfolding cut_back
ellipsize_plaintext_display s max_len =
    if max_len == 0 || leb (length s) max_len then s else take (cut_back s max_len) s ++ codes "..."

unfoldable pub hex_digit : ℕ → ℕ
hex_digit n = if ltb n 10 then b'0' + n else b'a' + (n - 10)

-- `\x%02x` of a byte.
unfoldable pub hex_escape : ℕ → Bytes
unfolding hex_digit
hex_escape r = b'\\' ∷ b'x' ∷ hex_digit (r / 16) ∷ hex_digit (r % 16) ∷ []

unfoldable pub shown_rune : ℕ → Bool
shown_rune r = r == 10 || r == 13 || r == 9 || leb 32 r && ltb r 127 || ltb 127 r

-- Each rune is written as it stands, or escaped. A rune takes a byte at least: the length is fuel.
unfoldable pub escape_runes : ℕ → Bytes → Bytes
unfolding decode_rune shown_rune hex_escape
escape_runes zero s = []
escape_runes (suc fuel) [] = []
escape_runes (suc fuel) (c ∷ s) =
    let (r, w) = decode_rune (c ∷ s) in
    (if shown_rune r then take (width_or_one w) (c ∷ s) else hex_escape r)
    ++ escape_runes fuel (drop (width_or_one w) (c ∷ s))

unfoldable pub plaintext_display_string : Bytes → Bytes
unfolding escape_runes to_valid_utf8
plaintext_display_string data' = let s = to_valid_utf8 data' in escape_runes (length s) s

module _ (ext : Extern) where
  open ext use {json_object, json_string}

  -- The first of the well-known keys that holds plain text.
  unfoldable pub text_under_keys : List Bytes → RawObject → Option Bytes
  unfolding raw_get json_raw_string looks_like_structured_json
  text_under_keys [] obj = none
  text_under_keys (key ∷ keys) obj =
      let s = json_raw_string ext (raw_get key obj) in
      let later = text_under_keys keys obj in
      if not (is_empty s) && not (looks_like_structured_json s) then some s else later

  -- One round of the loop over the other keys: `best` and `bestScore` so far.
  unfoldable pub better_text : Bytes × ℤ → Bytes × Bytes → Bytes × ℤ
  unfolding any looks_like_base64_blob printable_text_score
  better_text (best, best_score) (key, raw) =
      let s = json_raw_string ext raw in
      let score = printable_text_score ext s in
      if any (λ k. eq_bytes k key) plaintext_json_skip_keys
        || is_empty s
        || looks_like_structured_json s
        || looks_like_base64_blob ext s
      then (best, best_score)
      else if ltb_ℤ best_score score
      then (s, score)
      else (best, best_score)

  unfoldable pub best_text : Bytes × ℤ → RawObject → Bytes
  unfolding better_text
  best_text (best, score) [] = best
  best_text state (e ∷ obj) = best_text (better_text state e) obj

  unfoldable pub object_text : Bytes → RawObject → Bytes
  unfolding text_under_keys best_text
  object_text data' obj = elim (text_under_keys plaintext_json_text_keys obj) [
    | some s ↦ s
    | none ↦ let best = best_text ([], negsuc 0) obj in if is_empty best then data' else best
  ]

  unfoldable pub extract_json_text_body : Bytes → Bytes
  unfolding object_text trim_space has_prefix
  extract_json_text_body data' =
      let trimmed = trim_space data' in
      if has_prefix (codes "\"") trimmed
      then elim (json_string trimmed) [ none ↦ data' | some s ↦ s ]
      else if has_prefix (codes "{") trimmed
      then elim (json_object trimmed) [
        | none ↦ data'
        | some obj ↦ if is_export_record_object ext obj then data' else object_text data' obj
      ]
      else data'

  -- One round of the extraction.
  unfoldable pub extract_text : Bytes → Bytes
  unfolding extract_http_body extract_http_request_line extract_json_text_body
  extract_text data' = extract_json_text_body (extract_http_request_line (extract_http_body data'))

  -- At most so many rounds, and no more once a round changes nothing.
  unfoldable pub extract_rounds : ℕ → Bytes → Bytes
  extract_rounds zero data' = data'
  extract_rounds (suc n) data' =
      let next = extract_text data' in
      let further = extract_rounds n next in if eq_bytes next data' then data' else further

  unfoldable pub format_plaintext_payload : Bytes → Bytes
  unfolding extract_rounds is_noise_payload plaintext_display_string is_garbage_display
  format_plaintext_payload data' =
      let text = extract_rounds 3 (unwrap_payload_layers ext data') in
      let display = plaintext_display_string text in
      if is_noise_payload ext text then [] else if is_garbage_display display then [] else display

  -- `plaintextPreviewForDisplay`; `max_len` is 0 where the caller gives none.
  unfoldable pub plaintext_preview_for_display : GenericMap → ℕ → Bytes
  unfolding format_plaintext_payload ellipsize_plaintext_display
  plaintext_preview_for_display m max_len =
      let payload = plaintext_payload_bytes ext m in
      let display = format_plaintext_payload payload in
      if is_empty payload
      then []
      else if is_empty display
      then []
      else ellipsize_plaintext_display display (if ltb 0 max_len then max_len else 120)

  unfoldable pub is_meaningful_plaintext_record : GenericMap → Bool
  unfolding plaintext_preview_for_display
  is_meaningful_plaintext_record m = not (is_empty (plaintext_preview_for_display m 0))

  unfoldable pub enrich_plaintext_for_export : GenericMap → GenericMap
  unfolding plaintext_preview_for_display
  enrich_plaintext_for_export m =
      let display = plaintext_preview_for_display m 0 in
      if is_empty display then m else put (codes "PlaintextDisplay") (str display) m
