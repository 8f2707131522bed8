-- ===== src/Depth.antt =====
-- rust/crates/pg-marketdata/src/binance_depth.rs: the depth bridge of one symbol, which joins a REST
-- snapshot to a stream of updates.
pub mod Bridge
pub mod Update
pub mod Paths
pub mod FailClosed
pub mod Sequence
mod Examples
