-- ===== src/Snapshot.antt =====
-- crates/trust-kernel/src/snapshot.rs: snapshots of memory regions as .tza archives.
pub mod Engine
pub mod Archive
pub mod Layout
