-- ===== src/Node.antt =====
-- The node beside its grants: the inner address pool and the retry tokens,
-- crates/nil-node/src/.
pub mod Pool
pub mod Retry
mod Tests
