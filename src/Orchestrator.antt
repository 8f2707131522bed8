-- ===== src/Orchestrator.antt =====
-- rust/crates/pg-orchestrator/src/lib.rs: durable execution, which joins the store, the order records,
-- the venue adapters and reconciliation.
pub mod Defs
pub mod Session
pub mod Snapshot
pub mod Steps
pub mod Ownership
pub mod Dispatch
pub mod Cancel
pub mod Recovery
pub mod Traces
pub mod Journal
pub mod Cycle
mod Examples
