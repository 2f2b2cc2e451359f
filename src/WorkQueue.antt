-- ===== src/WorkQueue.antt =====
-- The work queue of crates/graphrefly/src/work_queue.rs: its commands and records, the state that the
-- reducer keeps, a handler for each command, and the pages read from the state.
pub mod Commands
pub mod Records
pub mod Events
pub mod State
pub mod Leases
pub mod Workers
pub mod Claims
pub mod Validation
pub mod Reducer
pub mod Contract
pub mod Trace
pub mod Outcome
pub mod Pages
pub mod Examples
