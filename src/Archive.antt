-- ===== src/Archive.antt =====
-- crates/trust-kernel/src/archivaris.rs and tibet_token.rs: Kernel B, its archive and its vault.
pub mod Token
pub mod Archivaris
pub mod Vault
pub mod Growth
pub mod RoundTrip
pub mod Passage
