-- ===== src/Reconcile.antt =====
-- rust/crates/pg-reconcile/src/lib.rs: the comparison of the local books with a venue's.
pub mod Defs
pub mod Compare
pub mod Gates
pub mod Issues
pub mod Report
pub mod Agreement
pub mod Holds
mod Examples
