-- ===== src/AcceptanceCache.antt =====
-- promptAcceptanceCache of daemon/cmd/daemon/prompt_state.go: which prompts were accepted, so that a
-- retransmission is acknowledged again and not executed again.
pub mod Cache
pub mod Acknowledge
pub mod Ring
mod Examples
