-- ===== src/Core.antt =====
-- The crate `ots-core`.
pub mod Codes
pub mod Tables
pub mod Error
pub mod Opcode
pub mod Requests
pub mod Responses
pub mod Flags
pub mod Uuids
pub mod Utf8
pub mod Numbers
pub mod DateTime
pub mod Metadata
pub mod DirEntries
pub mod L2cap
