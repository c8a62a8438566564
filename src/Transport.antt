-- ===== src/Transport.antt =====
-- The framing of tunnelled packets, crates/nil-transport/src/.
pub mod ConnectIp
pub mod UdpIp
pub mod Cascade
pub mod Selector
mod Tests
