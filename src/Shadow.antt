-- ===== src/Shadow.antt =====
-- rust/crates/pg-execution/src/shadow.rs: the simulated venue.
pub mod Defs
pub mod Book
pub mod Adapter
pub mod Replay
pub mod Ledger
pub mod Reduce
mod Examples
