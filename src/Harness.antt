-- ===== src/Harness.antt =====
-- tau_agent/harness.py: the stateful harness round the loop. `Queues` holds the message queues,
-- `Repair` the repair of an interrupted transcript, `Runs` a whole run; the other modules are named
-- for what they prove.
pub mod Queues
pub mod Repair
pub mod Runs
mod Examples
