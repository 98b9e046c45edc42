-- ===== src/Loop.antt =====
-- tau_agent/loop.py: the provider and tool loop. `Environment` is what it calls; `Tools`, `Stream`
-- and `Turns` are its code; the other modules are named for what they prove of it.
pub mod Environment
pub mod Tools
pub mod Stream
pub mod Turns
pub mod Examples
pub mod Relation
pub mod Calls
pub mod Streams
pub mod Transcript
pub mod Phases
pub mod Protocol
pub mod Limit
pub mod Approval
pub mod Answering
pub mod Answers
