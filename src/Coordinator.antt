-- ===== src/Coordinator.antt =====
-- The Coordinator's limiter of redemptions and its choice of paths, crates/nil-coordinator/src/. Its
-- ledger is in `Redemption`.
pub mod RateLimit
pub mod Registry
pub mod Validation
pub mod PathSelection
mod Tests
