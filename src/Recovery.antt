-- ===== src/Recovery.antt =====
-- crates/trust-kernel/src/recovery.rs: the catalogue of snapshots and the choice of a recovery.
pub mod Index
pub mod Engine
pub mod Order
mod Choice
pub mod Best
