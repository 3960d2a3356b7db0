-- ===== src/Relay.antt =====
-- The relay's live connections: relaycore/connections.go.
pub mod Outbound
pub mod Bounded
pub mod Delivery
pub mod Phones
pub mod Subscriptions
pub mod Links
pub mod Calls
pub mod Newest
pub mod Daemons
pub mod Generations
pub mod Registry
pub mod Presence
pub mod Hooks
pub mod Superseded
pub mod Snapshot
mod Examples
pub mod Catalog
