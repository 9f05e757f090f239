-- ===== src/Cluster.antt =====
-- crates/trust-kernel/src/cluster_transport.rs and cluster_mux.rs: where RAM B keeps its blocks.
pub mod BlockStore
pub mod MuxClient
pub mod Frames
pub mod Streaming
pub mod HashCache
pub mod Server
pub mod Client
pub mod Spec
pub mod Requests
pub mod Stores
pub mod Refinement
pub mod Batch
pub mod Verdict
