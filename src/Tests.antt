-- ===== src/Tests.antt =====
-- Concrete instances of the interfaces, and the theorems applied to them.
pub mod Instances
pub mod Library
pub mod Wire
pub mod Exchanges
pub mod Records
pub mod Commands
pub mod Listings
pub mod Sockets
