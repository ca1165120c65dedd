-- ===== src/Session.antt =====
-- agent_core/session.py: the state of a session and its journal.
pub mod Message
pub mod State
pub mod Apply
pub mod Journal
pub mod Operations
pub mod Records
pub mod Perform
pub mod Replay
pub mod Load
pub mod Examples
pub mod Recovery
pub mod Keyed
pub mod Restart
pub mod Planning
pub mod Fork
pub mod JournalFile
