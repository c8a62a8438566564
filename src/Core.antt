-- ===== src/Core.antt =====
-- What the other crates share, crates/nil-core.
pub mod Checksum
mod Tests
