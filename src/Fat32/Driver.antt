-- ===== src/Fat32/Driver.antt =====
-- The driver of FAT32: Fat32Driver and init of fs/src/fat32/mod.rs. Its mount looks at the global device
-- and not at the one that is given.
use serix.Base.{ℕ, List, [], ◌∷◌, none, some}
use serix.Block.Registry.{FsDriver, register}
use serix.Fat32.Bpb.{probe}
use serix.Fat32.Node.{Fat32State, mount}

-- A mount gives the state with the volume and the cluster of the root.
unfoldable pub fat32_driver : Fat32State → FsDriver (Fat32State × ℕ)
fat32_driver st = record {
  name = b'f' ∷ b'a' ∷ b't' ∷ b'3' ∷ b'2' ∷ [];
  probe = probe;
  mount =
      λ _. let (cluster, st') = mount st in elim cluster [ none ↦ none | some c ↦ some (st', c) ];
}

unfoldable pub init :
    Fat32State → List (FsDriver (Fat32State × ℕ)) → List (FsDriver (Fat32State × ℕ))
init st reg = register (fat32_driver st) reg
