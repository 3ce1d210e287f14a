-- ===== src/Block/Registry.antt =====
-- The registry of file-system drivers: `register`, `unregister` and `probe_and_mount` of fs/src/lib.rs.
-- `N` is the type of the nodes that a driver's `mount` answers with.
use serix.Base.{Bool, List, [], ◌∷◌, ◌++◌, Option, none, if◌then◌else◌}
use serix.Block.{BlockDev}
use serix.Vfs.Path.{Str, str_eq}

pub record FsDriver (N : Type 0) : Type 0 where
  pub name : Str
  pub probe : BlockDev → Bool
  pub mount : BlockDev → Option N

module _ {N : Type 0} where
  -- `retain(|d| d.name() != name)`, which is all that `unregister` does.
  unfoldable pub unregister : Str → List (FsDriver N) → List (FsDriver N)
  unregister name [] = []
  unregister name (d ∷ ds) =
      let rest = unregister name ds in if str_eq d.name name then rest else d ∷ rest

  unfoldable pub register : FsDriver N → List (FsDriver N) → List (FsDriver N)
  register driver reg = unregister driver.name reg ++ driver ∷ []

  unfoldable pub probe_and_mount : List (FsDriver N) → BlockDev → Option N
  probe_and_mount [] dev = none
  probe_and_mount (d ∷ ds) dev =
      let rest = probe_and_mount ds dev in if d.probe dev then d.mount dev else rest
