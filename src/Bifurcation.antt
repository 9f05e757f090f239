-- ===== src/Bifurcation.antt =====
-- crates/trust-kernel/src/bifurcation.rs: encryption of blocks by clearance, and live migration.
pub mod Types
pub mod Crypto
pub mod KeyCache
pub mod Session
pub mod Airlock
pub mod Keys
pub mod Opening
pub mod Batch
pub mod BatchKeys
pub mod Runs
pub mod Granted
pub mod RoundTrip
pub mod Limits
pub mod BatchRoundTrip
pub mod Parallel
