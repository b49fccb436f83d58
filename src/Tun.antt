-- ===== src/Tun.antt =====
-- spec/tun and tun/server: the tunnels that clients publish through the ring.
pub mod Text
pub mod Hex
pub mod Label
pub mod Keys
pub mod Identity
pub mod Kv
pub mod Changes
pub mod Messages
pub mod Server
pub mod Grants
pub mod Delegations
pub mod Routes
pub mod Publication
pub mod Sessions
