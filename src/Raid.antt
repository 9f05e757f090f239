-- ===== src/Raid.antt =====
-- crates/trust-kernel/src/ram_raid.rs: the RAM RAID controller.
pub mod Types
pub mod Config
pub mod Simulated
pub mod Controller
pub mod Evict
pub mod Restore
pub mod Fault
pub mod Workload
pub mod Batch
pub mod Coldest
pub mod Moves
pub mod Evictions
pub mod Restores
pub mod Faults
pub mod Production
pub mod Runs
pub mod RoundTrip
pub mod LostBlock
pub mod BatchSteps
pub mod Partitions
pub mod BatchLoops
pub mod BatchRemote
pub mod ReadBatch
pub mod BatchEvicted
