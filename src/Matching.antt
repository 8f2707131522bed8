-- ===== src/Matching.antt =====
-- rust/crates/pg-execution/src/matching.rs: the L1 matching primitive and the coordinator of linked
-- orders.
pub mod Match
pub mod Paths
pub mod Fill
pub mod Policy
pub mod Coordinator
pub mod Links
mod Examples
