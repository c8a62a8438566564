-- ===== src/Redemption.antt =====
-- The Coordinator's redemption ledger, crates/nil-coordinator/src/nullifier.rs.
pub mod Cipher
pub mod Record
pub mod Memory
pub mod Plain
mod Tests
