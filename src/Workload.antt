-- ===== src/Workload.antt =====
-- crates/x07-wasm/src/workload/surface.rs: a service's manifest and its validation.
pub mod Manifest
pub mod Cell
pub mod Validate
pub mod Accepted
pub mod Topology
pub mod Pack
pub mod Describe
pub mod Hints
pub mod Preview
pub mod Groups
pub mod Grouping
mod Tests
