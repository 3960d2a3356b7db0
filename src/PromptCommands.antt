-- ===== src/PromptCommands.antt =====
-- The server's durable records of prompts: server/internal/db/prompt_commands.go.
pub mod Table
pub mod Commands
pub mod Effects
pub mod Kept
pub mod Retry
pub mod Owner
pub mod Sound
pub mod Listing
pub mod Calls
mod Examples
