-- ===== src/Pager.antt =====
-- crates/trust-kernel/src/upip_pager.rs: paging of memory chunks by sealed fork tokens.
pub mod Types
pub mod Paging
pub mod Bulk
pub mod Rounds
pub mod Fresh
pub mod Tokens
pub mod Assembly
