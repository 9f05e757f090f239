-- ===== src/Zandbak.antt =====
-- crates/trust-kernel/src/zandbak.rs: the memory region of a sandbox.
pub mod Region
pub mod Runs
