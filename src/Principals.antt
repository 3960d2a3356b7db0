-- ===== src/Principals.antt =====
-- The relay's registry of credentials: relaycore/principals.go.
pub mod Registry
pub mod Distinct
pub mod Tokens
mod Examples
