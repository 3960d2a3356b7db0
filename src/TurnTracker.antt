-- ===== src/TurnTracker.antt =====
-- The turn tracker of the adapters: daemon/internal/adapters/control_tracker.go.
pub mod Tracker
pub mod Turns
pub mod Order
mod Examples
