-- ===== src/PromptJournal.antt =====
-- The durable journal of prompts that were given to an agent: daemon/cmd/daemon/prompt_journal.go.
pub mod Record
pub mod Journal
pub mod Steps
pub mod Bounds
pub mod Once
pub mod Load
pub mod Restart
pub mod Durable
mod Examples
