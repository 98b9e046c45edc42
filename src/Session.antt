-- ===== src/Session.antt =====
-- tau_agent/session: the append-only entries, the tree they form and the state they replay to.
pub mod Entries
pub mod Tree
pub mod State
pub mod Jsonl
mod Examples
