-- ===== src/PromptQueue.antt =====
-- The durable prompt queue of the daemon: daemon/cmd/daemon/prompt_queue.go.
pub mod Item
pub mod Store
pub mod Queries
pub mod Enqueue
pub mod Transitions
pub mod Steps
pub mod Edges
pub mod Fifo
pub mod Keyed
pub mod Counts
pub mod Bounds
pub mod Durable
pub mod Load
pub mod Recovery
pub mod Restart
pub mod Claim
pub mod Idempotent
pub mod Orders
pub mod Numbering
pub mod Compaction
pub mod Retransmit
pub mod Settled
mod Examples
