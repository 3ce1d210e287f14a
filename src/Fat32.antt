-- ===== src/Fat32.antt =====
-- The FAT32 file system: fs/src/fat32/mod.rs.
pub mod Bpb
pub mod Fat
pub mod File
pub mod Entries
pub mod Alloc
pub mod Names
pub mod Dir
pub mod Create
pub mod Node
pub mod Slot
pub mod Chain
pub mod Driver
mod Tests
