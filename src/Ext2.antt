-- ===== src/Ext2.antt =====
-- The ext2 file system: fs/src/ext2.
pub mod Superblock
pub mod Groups
pub mod Alloc
pub mod Inode
pub mod BlockMap
pub mod Utf8
pub mod Dir
pub mod DirEdit
pub mod FileNode
pub mod DirNode
pub mod Driver
pub mod Blocks
mod Tests
pub mod Counts
pub mod Records
pub mod DirBlock
pub mod Marks
pub mod FileBytes
pub mod Pointers
