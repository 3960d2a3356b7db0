-- ===== src/StartJournal.antt =====
-- The durable journal of thread starts: daemon/internal/startjournal/journal.go.
pub mod Record
pub mod Journal
pub mod Load
pub mod Begin
mod Examples
