-- ===== src/Db/Invariant.antt =====
-- src/db.rs: what every statement keeps true of the table `jobs`.
pub mod Rows
mod Writes
mod Inserts
mod Batches
pub mod Sequences
