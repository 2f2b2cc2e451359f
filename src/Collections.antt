-- ===== src/Collections.antt =====
-- The stores behind the reactive collections of crates/graphrefly/src/data_structures.rs: list, log,
-- map and index backends. A store has one owner at a time, so its shared cells are plain fields.
pub mod Buffer
pub mod Lists
pub mod Log
pub mod Maps
pub mod Index
mod Examples
