-- ===== src/Client.antt =====
-- The crate `bluez-async-ots`.
pub mod Host
pub mod Transport
pub mod State
pub mod Operations
pub mod Objects
pub mod Transfer
pub mod Setup
pub mod Served
