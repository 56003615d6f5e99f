-- ===== src/Plaintext.antt =====
-- Plaintext records: cmd/plaintext_format.go, cmd/packet_capture_plaintext.go and
-- cmd/wire_payload.go.
pub mod Payload
pub mod Noise
pub mod Display
pub mod Wire
pub mod Annotation
pub mod Unmatched
