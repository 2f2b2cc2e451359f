-- ===== src/Node.antt =====
-- crates/graphrefly/src/node.rs: one node of the graph, its dependency slots, its waves and its
-- pause and pull gates.
pub mod State
pub mod Slots
pub mod Gates
pub mod Receive
pub mod Steps
pub mod Sorting
pub mod Down
pub mod Run
pub mod Pause
pub mod Apply
pub mod Invariant
pub mod Machine
pub mod Terminal
mod Examples
