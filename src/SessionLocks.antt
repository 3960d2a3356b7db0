-- ===== src/SessionLocks.antt =====
-- The locks of the daemon's sessions: sessionLockMap of daemon/cmd/daemon/prompt_state.go.
pub mod Locks
pub mod Users
pub mod Counted
pub mod Listed
pub mod Steps
pub mod Exclusion
mod Examples
