-- ===== src/WireBuffer.antt =====
-- The buffer that correlates wire packets with plaintext records: `wirePacketBuffer` of
-- cmd/packet_capture_wire_buffer.go. `Defs` and `Annotate` hold the state and one matching attempt,
-- `Operations` the operations; the other modules prove.
pub mod Defs
pub mod Annotate
pub mod Operations
pub mod Best
pub mod Attempts
pub mod Identity
pub mod Conservation
pub mod History
pub mod Limits
pub mod Expiry
pub mod Correct
pub mod Overlay
pub mod Exports
pub mod Provenance
pub mod Matched
