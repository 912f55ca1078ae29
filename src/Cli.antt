-- ===== src/Cli.antt =====
-- The crate `cli`.
pub mod Args
pub mod Command
pub mod Select
pub mod Listing
pub mod Hex
pub mod Transfer
pub mod Main
