-- ===== src/Vfs/Mounts.antt =====
-- The mount table of vfs/src/lib.rs: `mount`, `umount`, `set_root` and `lookup_path`. `I` is the type
-- of the `Arc<dyn INode>` handles, and `lookup` the file system's own `INode::lookup`.
use serix.Base.{
  ℕ, suc, ◌+◌, ◌≤◌, ◌≡◌, ◌≢◌, refl, sym, ap, ◌∙◌, Bool, true, false, ◌||◌, List, [], ◌∷◌, ◌++◌,
  Option, none, some, arith, if◌then◌else◌, leb, ltb, length, All,
}
use serix.Vfs.Path.{
  Str, root, str_eq, is_empty, trim_end, trim_start, strip_prefix, starts_with, components_from,
  components, normalize_mount_path,
}
pub mod Order
pub mod Calls
pub mod Leads
pub mod Resolve
pub mod Longest

pub record MountEntry (I : Type 0) : Type 0 where
  pub path : Str
  pub node : I

-- The closure of `lookup_path`: whether the entry's mount holds the path.
unfoldable pub holds : Str → Str → Bool
holds path mount_path =
    if str_eq mount_path root
    then starts_with path root
    else str_eq path (trim_end mount_path) || starts_with path mount_path

unfoldable pub remainder : Str → Str → Str
remainder path mount_path =
    if str_eq mount_path root
    then trim_start path
    else trim_start (elim (strip_prefix mount_path path) [ none ↦ [] | some r ↦ r ])

module _ {I : Type 0} where
  -- `table.iter_mut().find(|e| e.path == key)`, and the assignment to the entry's root.
  unfoldable pub replace : Str → I → List (MountEntry I) → Option (List (MountEntry I))
  replace key r [] = none
  replace key r (e ∷ t) =
      if str_eq e.path key
      then some (record { path = e.path; node = r } ∷ t)
      else elim (replace key r t) [ none ↦ none | some u ↦ some (e ∷ u) ]

  -- `sort_unstable_by(|a, b| b.path.len().cmp(&a.path.len()))`, as an insertion sort.
  unfoldable pub place : MountEntry I → List (MountEntry I) → List (MountEntry I)
  place e [] = e ∷ []
  place e (f ∷ t) = if ltb (length e.path) (length f.path) then f ∷ place e t else e ∷ f ∷ t

  unfoldable pub sort : List (MountEntry I) → List (MountEntry I)
  sort [] = []
  sort (e ∷ t) = place e (sort t)

  unfoldable pub mount : Str → I → List (MountEntry I) → List (MountEntry I)
  mount path r t =
      let key = normalize_mount_path path in
      elim (replace key r t) [
        | some u ↦ u
        | none ↦ sort (t ++ record { path = key; node = r } ∷ [])
      ]

  -- `position` and `Vec::remove`; none is the error "not mounted".
  unfoldable pub remove_at : Str → List (MountEntry I) → Option (List (MountEntry I))
  remove_at key [] = none
  remove_at key (e ∷ t) =
      if str_eq e.path key
      then some t
      else elim (remove_at key t) [ none ↦ none | some u ↦ some (e ∷ u) ]

  unfoldable pub umount : Str → List (MountEntry I) → Option (List (MountEntry I))
  umount path t = remove_at (normalize_mount_path path) t

  unfoldable pub set_root : I → List (MountEntry I) → List (MountEntry I)
  set_root r t = mount root r t

  unfoldable pub find_mount : Str → List (MountEntry I) → Option (MountEntry I)
  find_mount path [] = none
  find_mount path (e ∷ t) = if holds path e.path then some e else find_mount path t

  -- The walk over the path's components, which stops at the first that is missing.
  unfoldable pub walk : (I → Str → Option I) → I → List Str → Option I
  walk lookup node [] = some node
  walk lookup node (c ∷ cs) = elim (lookup node c) [ none ↦ none | some next ↦ walk lookup next cs ]

  unfoldable pub lookup_path : (I → Str → Option I) → Str → List (MountEntry I) → Option I
  unfolding find_mount remainder walk
  lookup_path lookup path t = elim (find_mount path t) [
    | none ↦ none
    | some e ↦
        let rest = remainder path e.path in
        if is_empty rest then some e.node else walk lookup e.node (components rest)
  ]
