-- ===== src/Capability/Tests.antt =====
-- Two capabilities under one key.
use serix.Base.{◌≡◌, refl, [], ◌∷◌, some}
use serix.Base.Map
use serix.Vfs.Path.{str_eq}
use serix.Capability.{
  Capability, CapabilityStore, task, io_device, key_keyed, added, removed, removes, get_capability,
  run, run-keeps,
}

abbrev first : Capability
first = record { cap_type = task; handle = record { key = 1 ∷ 2 ∷ [] } }

abbrev second : Capability
second = record { cap_type = io_device; handle = record { key = 1 ∷ 2 ∷ [] } }

abbrev store : CapabilityStore
store = (first.handle.key, first) ∷ []

run-keeps_example :
    get_capability (1 ∷ 2 ∷ []) (run store (added second ∷ removed (3 ∷ []) ∷ [])) ≡ some first
unfolding get_capability Map.get str_eq removes
run-keeps_example =
    run-keeps (added second ∷ removed (3 ∷ []) ∷ []) store (1 ∷ 2 ∷ []) first refl
      (refl, (refl, tt))
