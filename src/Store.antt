-- ===== src/Store.antt =====
-- rust/crates/pg-store/src: the durable fill ledger, with the tables of the database as lists of rows.
pub mod Fills
pub mod Ledger
mod Examples
