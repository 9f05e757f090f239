-- ===== src/Migration.antt =====
-- crates/trust-kernel/src/bifurcation.rs: live migration of blocks in sync rounds.
pub mod Live
pub mod Mirrors
pub mod Phases
