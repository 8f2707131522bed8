-- ===== src/Runtime.antt =====
-- rust/crates/pg-runtime/src/lib.rs: the run configuration and the startup gates.
pub mod Config
pub mod ConfigLaws
pub mod Gates
pub mod GateLaws
mod Examples
