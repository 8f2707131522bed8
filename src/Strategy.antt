-- ===== src/Strategy.antt =====
-- rust/crates/pg-strategy/src/lib.rs: the state machine that turns signals into intents and follows
-- their fills. A method on `&mut self` returns the new machine and its result. `fresh` is what
-- `Uuid::new_v4()` returns.
pub mod Defs
pub mod Machine
pub mod Control
pub mod Progress
pub mod Invariant
pub mod Histories
pub mod Signals
mod Examples
