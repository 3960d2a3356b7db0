-- ===== src/ActiveTurn.antt =====
-- The registry of active turns: daemon/cmd/daemon/active_turn.go.
pub mod Registry
pub mod Race
pub mod Completion
mod Examples
