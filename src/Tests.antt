-- ===== src/Tests.antt =====
-- Runs on concrete inputs, and the theorems at concrete inputs.
mod Raid
mod Bifurcation
mod Migration
mod Kernel
mod Xdp
mod Cluster
mod Pager
mod Snapshot
mod Recovery
mod Zandbak
mod Archive
mod Mapper
