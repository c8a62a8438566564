-- ===== src/Portal.antt =====
-- The Portal's accounts and their store, crates/nil-portal/src/account/model.rs and
-- crates/nil-portal/src/store/.
pub mod Account
pub mod Payload
pub mod ResultCipher
pub mod Columns
pub mod RateLimit
pub mod Store
mod Tests
