-- ===== src/Protocol.antt =====
-- protocol/protocol.go: the 8-byte packet header, the heartbeat with its extension, the
-- heartbeat ack, and the team key hash. Each codec's laws stand in a module below.
pub mod Wire
pub mod Header
pub mod Heartbeat
pub mod Ack
mod Tests
