-- ===== src/Xdp.antt =====
-- crates/trust-kernel/src/xdp.rs: the packet filter in front of the kernel.
pub mod Parse
pub mod Liquidator
pub mod Bounds
pub mod Counters
