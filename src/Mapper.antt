-- ===== src/Mapper.antt =====
-- crates/trust-kernel/src/llm_mapper.rs: the blocks of a language model as an aperture over the RAID
-- controller.
pub mod Manifest
pub mod Aperture
pub mod Layers
pub mod Inference
pub mod Steps
pub mod Loads
mod Queue
pub mod Budget
pub mod Tail
pub mod Sizes
