-- ===== src/Lib.antt =====
-- A verification library for NekoNest, a relay that lets a phone drive coding agents on other
-- machines. A daemon on each machine takes prompts from the relay, queues them durably, hands them
-- to the agents one at a time for each session and reports what becomes of each turn.
--
-- What is modelled, and where:
--   PromptQueue: promptQueue of daemon/cmd/daemon/prompt_queue.go. Item has the record types, the
--     statuses and the validation; Store the state, persist and the compaction of tombstones;
--     Queries the readers and the loops over the map; Enqueue and Transitions the operations that
--     change the queue; Load what a restart does with the file. Steps says what a sequence of
--     operations is and which changes one operation can make (Change), and Edges proves that each
--     operation makes one of them. Keyed, Counts, Fifo, Orders and Compaction hold the lemmas on the
--     map; Bounds, Claim, Durable, Idempotent, Numbering, Recovery, Restart, Retransmit and Settled
--     what holds of the queue.
--   PromptJournal: promptJournal of daemon/cmd/daemon/prompt_journal.go, which remembers the prompts
--     that were given to an agent. Record has the record types, the identifiers and the order of the
--     file; Journal the operations; Load what a restart does; Steps the sequences of operations; and
--     Bounds, Once, Durable and Restart what holds of the journal.
--   AcceptanceCache: promptAcceptanceCache of daemon/cmd/daemon/prompt_state.go. Cache has the
--     operations, Acknowledge what a retransmission hears, Ring its ring of keys as a queue.
--   StartJournal: Journal of daemon/internal/startjournal/journal.go, which remembers the threads that
--     a phone asked the daemon to start. Record has the record types and the validation, Journal the
--     operations, Load what a restart does, Begin what a repeated request hears.
--   ActiveTurn: activeTurnRegistry of daemon/cmd/daemon/active_turn.go. Registry has the operations,
--     Race and Completion what holds of calls that come in any order.
--   TurnTracker: turnTracker of daemon/internal/adapters/control_tracker.go, with the same division
--     into Tracker (operations), Turns and Order. Turns takes a call of accepted apart into its critical
--     sections.
--   Relay: ConnectionManager of relaycore/connections.go. Outbound has the bounded queue of frames of a
--     phone's socket, its writer and the drain of close as a step relation, Bounded and Delivery what
--     every interleaving of these keeps. Phones has the phones, their subscriptions and their eviction;
--     Subscriptions and Links the lemmas on these, Calls and Newest what holds of them. Daemons has the
--     daemons and the generations of their connections, Catalog what a daemon reports; Generations and
--     Registry the map against the open connections, Presence the hooks of one call, Hooks their order
--     when a removal is told late, Superseded what is left to a replaced connection, Snapshot what a
--     phone is told.
--   PromptCommands: the server's prompt records of server/internal/db/prompt_commands.go. Table has the
--     table of server/internal/db/db.go and the statements on it, Commands the methods, Listing the
--     query for prompts that wait for their commit. Effects says what one statement does to one row;
--     Kept, Retry and Sound what holds of the records, however statements interleave; Owner and Calls
--     what holds of the methods, each run without a statement of another call in between.
--   Protocol: relaycore/protocol/types.go and daemon/internal/wire/version.go. Version has the versions,
--     the transport modes and the handshake, Frame the envelope and the check of frames, Digits the
--     numbers of a version; RoundTrip, Handshake and Sealed what holds of these.
--   Principals: DigestPrincipalRegistry of relaycore/principals.go, the credentials of devices and phones.
--     Registry has the operations, Distinct and Tokens what holds of the phones' tokens.
--   SessionLocks: sessionLockMap of daemon/cmd/daemon/prompt_state.go as a step relation of any number of
--     goroutines. Locks has the steps; Users, Counted, Listed and Steps the invariant, Exclusion what
--     follows from it.
--   AtomicWrite: writeFileAtomic of daemon/cmd/daemon/prompt_journal.go, which the queue and the
--     journals call.
--   Text: Go strings as bytes, with utf8.ValidString and strings.TrimSpace written out, and
--     boundedUTF8 of daemon/cmd/daemon/prompt_journal.go.
--   Prelude: lists, maps as association lists, results, tests and integers that the parts share.
--
-- How the parts interact: a phone's frame reaches the relay, which checks it (Protocol), knows
-- the phone by its token (Principals), records a prompt (PromptCommands) and sends it to the live
-- connection of the daemon (Relay); what the daemon reports goes to the queues of the phones.
-- main.go of the daemon enqueues what the relay sends, claims an item for an idle session,
-- records it in the journal as dispatching, binds the turn in the active turn registry, starts
-- the agent by an adapter whose turn tracker reports acceptance and end, and completes or blocks
-- the item.
--
-- Conventions. Where one mutex covers an operation it is one step, and a concurrent run is a
-- sequence of such steps. What is done between or after critical sections is a step of its own for
-- a phone's queue and its writer, the session locks, the hook of RemoveDaemon and the turn
-- tracker's accepted; the methods on the prompt records run undisturbed, their statements in any
-- order. A Go map is an association list, whose order matters only where an eviction of
-- the prompt journal meets records of equal time; sorts are insertion sorts. A uint64 is a
-- natural number, with the sums of enqueue and of the daemons' generations taken modulo 2 ^ 64.
-- Each call of the operating system succeeds or fails as a record of Booleans says (Syscalls,
-- Opening), so a theorem on all such records covers every failure. The JSON codecs and the digest
-- of keys are parameters (Json, Codec). Loops are structural recursion, but for trimCommitted,
-- whose fuel is the number of records, of which each turn drops one, and for the digits of a
-- number, whose fuel is above the number, which each turn divides by ten.
--
-- Not modelled: the goroutines and the network loops of the daemon and of the relay, the agents'
-- processes and protocols, the other tables of the server, cryptography and the clients; a crash
-- in the middle of a system call; log messages and the texts of errors.
pub mod Prelude
pub mod Text
pub mod AtomicWrite
pub mod PromptQueue
pub mod PromptJournal
pub mod AcceptanceCache
pub mod StartJournal
pub mod ActiveTurn
pub mod Relay
pub mod PromptCommands
pub mod Protocol
pub mod Principals
pub mod SessionLocks
pub mod TurnTracker
