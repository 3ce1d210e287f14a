-- ===== src/Ext2/Driver.antt =====
-- The driver that ext2 registers: fs/src/ext2/mod.rs.
use serix.Base.{Bool, false, List, [], ◌∷◌, Option, none, some, ◌>>=◌, ◌==◌, le_at}
use serix.Block.{BlockDev, read_sector}
use serix.Block.Registry.{FsDriver, register}
use serix.Ext2.Superblock.{read, ext2_magic}
use serix.Ext2.Groups.{Ext2State}
use serix.Ext2.Groups
use serix.Ext2.DirNode.{Node, dir_node}

unfoldable pub probe : BlockDev → Bool
probe dev = elim (read_sector dev 2) [ none ↦ false | some buf ↦ le_at buf 56 2 == ext2_magic ]

-- The state of the mounted file system, and its root.
unfoldable pub mount : BlockDev → Option (Ext2State × Node)
mount dev = do
  sb ← read dev
  some (record { dev = dev; sb = sb; bgdt = Groups.read dev sb }, dir_node 2)

unfoldable pub ext2_driver : FsDriver (Ext2State × Node)
ext2_driver = record { name = 101 ∷ 120 ∷ 116 ∷ 50 ∷ []; probe = probe; mount = mount }

unfoldable pub init : List (FsDriver (Ext2State × Node)) → List (FsDriver (Ext2State × Node))
init reg = register ext2_driver reg
