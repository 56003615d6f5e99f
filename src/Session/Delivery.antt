-- ===== src/Session/Delivery.antt =====
-- What the collector delivers: each plaintext record under its number, and each packet.
pub mod Lines
pub mod Records
pub mod Frames
pub mod Packets
