-- ===== src/Plaintext/Wire.antt =====
-- The payload of a wire packet: cmd/wire_payload.go.
use netobserv_cli.Common.{
  ℕ, Bool, false, ◌&&◌, ◌||◌, List, [], ◌∷◌, Option, none, some, ltb, if◌then◌else◌, not, any,
  length,
}
use netobserv_cli.Text.{Bytes, codes, is_empty, has_prefix, trim_space}
use netobserv_cli.Extern.{Extern, LayerType, ethernet, linux_sll, ipv4, ipv6, absent, foreign, tcp}
use netobserv_cli.Plaintext.Noise.{is_garbage_display}
use netobserv_cli.Plaintext.Display.{plaintext_display_string, ellipsize_plaintext_display}

abbrev pub layer_types : List LayerType
layer_types = ethernet ∷ linux_sll ∷ ipv4 ∷ ipv6 ∷ []

abbrev pub http_prefixes : List Bytes
http_prefixes =
    codes "HTTP/1."
    ∷ codes "GET "
    ∷ codes "POST "
    ∷ codes "PUT "
    ∷ codes "HEAD "
    ∷ codes "DELETE "
    ∷ codes "PATCH "
    ∷ codes "OPTIONS "
    ∷ codes "CONNECT "
    ∷ codes "TRACE "
    ∷ []

unfoldable pub looks_like_cleartext_http : Bytes → Bool
unfolding trim_space any has_prefix
looks_like_cleartext_http data' =
    let trimmed = trim_space data' in
    if ltb (length trimmed) 9 then false else any (λ p. has_prefix p trimmed) http_prefixes

module _ (ext : Extern) where
  open ext use {tcp_layer}

  -- The length of the TCP payload, and `none` where no layer gives a TCP segment.
  unfoldable pub payload_info_of : List LayerType → Bytes → Option ℕ
  payload_info_of [] frame = none
  payload_info_of (l ∷ ls) frame = elim (tcp_layer l frame) [
    | absent ↦ payload_info_of ls frame
    | foreign ↦ some 0
    | tcp payload ↦ some (length payload)
  ]

  unfoldable pub wire_tcp_payload_info : Bytes → Option ℕ
  unfolding payload_info_of
  wire_tcp_payload_info frame = if is_empty frame then none else payload_info_of layer_types frame

  unfoldable pub payload_of : List LayerType → Bytes → Bytes
  payload_of [] frame = []
  payload_of (l ∷ ls) frame = elim (tcp_layer l frame) [
    | absent ↦ payload_of ls frame
    | foreign ↦ []
    | tcp payload ↦ payload
  ]

  unfoldable pub extract_tcp_payload_from_frame : Bytes → Bytes
  unfolding payload_of wire_tcp_payload_info
  extract_tcp_payload_from_frame frame = elim (wire_tcp_payload_info frame) [
    | none ↦ []
    | some n ↦ if ltb 0 n then payload_of layer_types frame else []
  ]

  unfoldable pub http_of : Bytes → Bytes
  unfolding plaintext_display_string is_garbage_display ellipsize_plaintext_display
  http_of app =
      let display = plaintext_display_string app in
      if is_empty app || not (looks_like_cleartext_http app)
      then []
      else if is_garbage_display display
      then []
      else ellipsize_plaintext_display display 4096

  unfoldable pub format_wire_http_payload : Bytes → Bytes
  unfolding http_of extract_tcp_payload_from_frame looks_like_cleartext_http
  format_wire_http_payload full_frame =
      let app = extract_tcp_payload_from_frame full_frame in
      http_of (if is_empty app && looks_like_cleartext_http full_frame then full_frame else app)

  unfoldable pub wire_payload_panel_title : Bytes → Bytes
  unfolding format_wire_http_payload
  wire_payload_panel_title data' =
      if is_empty (format_wire_http_payload data')
      then codes "Wire payload"
      else codes "Wire HTTP (cleartext)"
