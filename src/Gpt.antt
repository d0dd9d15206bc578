-- ===== src/Gpt.antt =====
-- fs/gpt/gpt.c: the GUID partition table.
pub mod Crc
pub mod Data
pub mod Operations
pub mod Init
pub mod Disk
pub mod Verify
pub mod Changes
pub mod Names
pub mod Encoding
pub mod Entries
mod Tests
pub mod Create
