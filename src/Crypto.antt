-- ===== src/Crypto.antt =====
-- The cryptographic protocol code of the repository, crates/nil-crypto.
pub mod Translog
mod Tests
