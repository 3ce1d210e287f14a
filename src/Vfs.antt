-- ===== src/Vfs.antt =====
-- vfs/src/lib.rs: paths, the mount table and the nodes in memory. A path is the list of its bytes.
pub mod Path
pub mod Mounts
pub mod RamFile
pub mod RamDir
mod Tests
use serix.Base.{ℕ}

pub data FileType : Type 0 where
  file directory device : FileType
