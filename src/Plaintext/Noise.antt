-- ===== src/Plaintext/Noise.antt =====
-- Which payloads and texts are not worth showing: cmd/plaintext_format.go, from `isNoisePayload` to
-- `printableTextScore`.
use netobserv_cli.Common.{
  ℕ, suc, ◌*◌, Bool, false, ◌&&◌, ◌||◌, List, [], ◌∷◌, none, some, ltb, leb, ◌==◌, if◌then◌else◌,
  not, is_some, any, all, length,
}
use netobserv_cli.Common.Int.{ℤ, negsuc, sub_ℕ}
use netobserv_cli.Text.{Bytes, codes, is_empty, has_prefix, contains, trim_space}
use netobserv_cli.Text.Utf8.{runes}
use netobserv_cli.Extern.{Extern}
use netobserv_cli.Plaintext.Payload.{RawObject, raw_has, is_export_record_object}

unfoldable pub is_tls_record : Bytes → Bool
is_tls_record (a ∷ b ∷ c ∷ s) =
    b == 0x03
    && (a == 0x14 || a == 0x15 || a == 0x16 || a == 0x17)
    && (c == 0x01 || c == 0x03 || c == 0x04)
is_tls_record _ = false

unfoldable pub contains_agent_export_leak : Bytes → Bool
unfolding contains
contains_agent_export_leak data' =
    contains (codes "\"RecordType\":\"plaintext\"") data'
    || contains (codes "\"Plaintext\"") data' && contains (codes "\"Direction\"") data'
    || contains (codes "\"Bytes\"") data' && contains (codes "\"Data\"") data'

unfoldable pub is_packet_export_object : RawObject → Bool
unfolding raw_has
is_packet_export_object obj = raw_has (codes "Bytes") obj && raw_has (codes "Data") obj

unfoldable pub is_printable_byte : ℕ → Bool
is_printable_byte b = b == 9 || b == 10 || b == 13 || leb 32 b && ltb b 127

unfoldable pub printable_count : Bytes → ℕ
unfolding is_printable_byte
printable_count [] = 0
printable_count (b ∷ s) = let n = printable_count s in if is_printable_byte b then suc n else n

-- `printableRatio(data) < percent / 100`: the quotient of two counts is compared by their products.
-- The ratio of the empty text is 0.
unfoldable pub printable_ratio_below : ℕ → Bytes → Bool
unfolding printable_count
printable_ratio_below percent [] = ltb 0 percent
printable_ratio_below percent (b ∷ s) =
    ltb (printable_count (b ∷ s) * 100) (percent * length (b ∷ s))

abbrev ansi_escape : Bytes
ansi_escape = 0x1B ∷ b'[' ∷ []

unfoldable pub is_identifier_rune : ℕ → Bool
is_identifier_rune r =
    leb b'A' r && leb r b'Z'
    || leb b'a' r && leb r b'z'
    || leb b'0' r && leb r b'9'
    || r == b'/'
    || r == b'.'
    || r == b'-'
    || r == b'_'

-- Every rune is an ASCII letter, a digit or one of `/.-_`.
unfoldable pub is_plain_identifier_text : Bytes → Bool
unfolding is_identifier_rune all runes
is_plain_identifier_text s = all is_identifier_rune (runes s)

abbrev pub short_plaintext_http_prefixes : List Bytes
short_plaintext_http_prefixes =
    codes "HTTP/"
    ∷ codes "GET "
    ∷ codes "POST "
    ∷ codes "PUT "
    ∷ codes "DELETE "
    ∷ codes "HEAD "
    ∷ codes "OPTIONS "
    ∷ codes "PATCH "
    ∷ []

unfoldable pub looks_like_short_plaintext : Bytes → Bool
unfolding any has_prefix is_plain_identifier_text trim_space
looks_like_short_plaintext s =
    let trimmed = trim_space s in
    if is_empty trimmed
    then false
    else any (λ p. has_prefix p trimmed) short_plaintext_http_prefixes
      || has_prefix (codes "{") trimmed
      || has_prefix (codes "[") trimmed
      || is_plain_identifier_text trimmed && leb 2 (length trimmed)

unfoldable pub is_garbage_display : Bytes → Bool
unfolding contains printable_ratio_below looks_like_short_plaintext
is_garbage_display s =
    is_empty s
    || contains (codes "\\x") s
    || contains (codes "{\"Bytes\":") s
    || contains (codes "{\"Direction\":") s
    || contains ansi_escape s
    || printable_ratio_below 72 s && ltb 24 (length s)
    || ltb (length (trim_space s)) 6 && not (looks_like_short_plaintext s)

unfoldable pub looks_like_structured_json : Bytes → Bool
unfolding trim_space has_prefix
looks_like_structured_json s =
    let t = trim_space s in has_prefix (codes "{") t || has_prefix (codes "[") t

unfoldable pub is_base64_rune : ℕ → Bool
is_base64_rune r =
    leb b'A' r && leb r b'Z'
    || leb b'a' r && leb r b'z'
    || leb b'0' r && leb r b'9'
    || r == b'+'
    || r == b'/'
    || r == b'='

module _ (ext : Extern) where
  open ext use {decode_base64, json_object, is_print}

  unfoldable pub looks_like_base64_blob : Bytes → Bool
  unfolding all runes is_base64_rune
  looks_like_base64_blob s =
      if ltb (length s) 32
      then false
      else if not (all is_base64_rune (runes s))
      then false
      else is_some (decode_base64 s)

  -- How many runes lower the score.
  unfoldable pub unprintable_count : List ℕ → ℕ
  unprintable_count [] = 0
  unprintable_count (r ∷ rs) =
      let n = unprintable_count rs in
      if r == 10 || r == 13 || r == 9 then n else if ltb r 32 || not (is_print r) then suc n else n

  unfoldable pub printable_text_score : Bytes → ℤ
  unfolding unprintable_count runes
  printable_text_score s =
      if is_empty s then negsuc 0 else sub_ℕ (length s) (4 * unprintable_count (runes s))

  unfoldable pub is_noise_object : Bytes → Bool
  unfolding is_packet_export_object
  is_noise_object trimmed = elim (json_object trimmed) [
    | none ↦ false
    | some obj ↦ is_export_record_object ext obj || is_packet_export_object obj
  ]

  unfoldable pub is_noise_payload : Bytes → Bool
  unfolding is_tls_record has_prefix contains contains_agent_export_leak printable_ratio_below
      is_noise_object trim_space
  is_noise_payload data' =
      is_empty data'
      || is_tls_record data'
      || has_prefix (codes "PRI * HTTP/2") data'
      || contains ansi_escape data'
      || contains_agent_export_leak data'
      || leb (length data') 8 && printable_ratio_below 50 data'
      || has_prefix (0 ∷ 0 ∷ []) data' && printable_ratio_below 72 data'
      || printable_ratio_below 35 data' && ltb 16 (length data')
      || has_prefix (codes "{") (trim_space data') && is_noise_object (trim_space data')
