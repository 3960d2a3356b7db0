-- ===== src/Protocol.antt =====
-- The wire protocol: relaycore/protocol/types.go and daemon/internal/wire/version.go.
pub mod Digits
pub mod Version
pub mod RoundTrip
pub mod Handshake
pub mod Frame
pub mod Sealed
mod Examples
