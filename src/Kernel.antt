-- ===== src/Kernel.antt =====
-- crates/trust-kernel/src: the path from Kernel A (Voorproever) over the bus to Kernel B, and its watchdog.
pub mod Bus
pub mod Watchdog
pub mod Snaft
pub mod Voorproever
pub mod Delivery
pub mod Deadline
pub mod Screening
