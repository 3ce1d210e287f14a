-- ===== src/Vfs/RamDir.antt =====
-- `RamDir` of vfs/src/lib.rs. An `Arc<dyn INode>` is the index of a node in the heap of nodes, so that
-- an entry and the handle a caller got stand for the same file.
use serix.Base.{
  ℕ, ◌+◌, ◌≡◌, Bool, true, false, ◌||◌, List, [], ◌∷◌, ◌++◌, Option, none, some, if◌then◌else◌,
  length, get_elem?,
}
use serix.Vfs.{FileType, directory}
use serix.Vfs.Path.{Str, str_eq}
use serix.Vfs.RamFile
use serix.Vfs.RamFile.{RamFile}
pub mod Entries
pub mod Refine
pub mod Heap

pub record RamDir : Type 0 where
  pub name : Str
  pub children : List (Str × ℕ)

-- The nodes that this crate makes.
pub data Node : Type 0 where
  ram_file : RamFile → Node
  ram_dir : RamDir → Node

unfoldable pub new : Str → RamDir
new n = record { name = n; children = [] }

-- `children.iter().find(|(n, _)| n == name)`
unfoldable pub find_child : Str → List (Str × ℕ) → Option ℕ
find_child name [] = none
find_child name ((n, node) ∷ cs) = if str_eq n name then some node else find_child name cs

unfoldable pub lookup : Str → RamDir → Option ℕ
lookup name d = find_child name d.children

-- `children.iter().any(|(n, _)| n == name)`
unfoldable pub any_child : Str → List (Str × ℕ) → Bool
any_child name [] = false
any_child name ((n, node) ∷ cs) = str_eq n name || any_child name cs

-- none is the error "file exists".
unfoldable pub insert : Str → ℕ → RamDir → Option RamDir
insert name node d =
    if any_child name d.children
    then none
    else some (record { name = d.name; children = d.children ++ (name, node) ∷ [] })

-- The new node is allocated before the insertion is tried; when that fails it is dropped.
unfoldable pub create : Str → Node → RamDir → List Node → Option (ℕ × (RamDir × List Node))
unfolding insert
create name node d heap = elim (insert name (length heap) d) [
  | none ↦ none
  | some e ↦ some (length heap, (e, heap ++ node ∷ []))
]

unfoldable pub create_file : Str → RamDir → List Node → Option (ℕ × (RamDir × List Node))
create_file name d heap = create name (ram_file (RamFile.new name)) d heap

unfoldable pub mkdir : Str → RamDir → List Node → Option (RamDir × List Node)
mkdir name d heap = elim (create name (ram_dir (new name)) d heap) [
  | none ↦ none
  | some r ↦ some r.1
]

-- `position` and `Vec::remove`
unfoldable pub remove_child : Str → List (Str × ℕ) → Option (List (Str × ℕ))
remove_child name [] = none
remove_child name ((n, node) ∷ cs) =
    if str_eq n name
    then some cs
    else elim (remove_child name cs) [ none ↦ none | some r ↦ some ((n, node) ∷ r) ]

-- none is the error "not found".
unfoldable pub unlink : Str → RamDir → Option RamDir
unfolding remove_child
unlink name d = elim (remove_child name d.children) [
  | none ↦ none
  | some cs ↦ some (record { name = d.name; children = cs })
]

unfoldable pub metadata : Node → FileType
metadata (ram_file f) = RamFile.metadata f
metadata (ram_dir d) = directory

-- The names and types in order; an index that is no node does not occur in a directory.
unfoldable pub list : List Node → List (Str × ℕ) → List (Str × FileType)
list heap [] = []
list heap ((n, node) ∷ cs) = elim (get_elem? heap node) [
  | none ↦ list heap cs
  | some x ↦ (n, metadata x) ∷ list heap cs
]

unfoldable pub readdir : List Node → RamDir → List (Str × FileType)
readdir heap d = list heap d.children
