-- ===== src/Ext2/Dir.antt =====
-- Directories: fs/src/ext2/dir.rs. A block is a chain of entries of `rec_len` bytes each.
use serix.Base.{
  ℕ, zero, suc, ◌+◌, ◌-◌, ◌/◌, ◌%◌, ◌^◌, min, Bool, true, false, not, ◌&&◌, List, [], ◌∷◌, ◌++◌,
  Option, none, some, if◌then◌else◌, ◌==◌, leb, length, slice, le_at,
}
use serix.Block.{BlockDev}
use serix.Vfs.{FileType, file, directory}
use serix.Vfs.Path.{Str, str_eq}
use serix.Ext2.Utf8.{is_utf8}
use serix.Ext2.Superblock.{Superblock, block_size, read_block}
use serix.Ext2.Groups.{Ext2State}
use serix.Ext2.Inode.{Inode, is_dir, read}
use serix.Ext2.BlockMap.{get_block}

abbrev pub ft_reg_file : ℕ
ft_reg_file = 1

abbrev pub ft_dir : ℕ
ft_dir = 2

-- The arguments of the closure that `for_each_entry` calls.
pub record Entry : Type 0 where
  pub off : ℕ
  pub ino : ℕ
  pub rec_len : ℕ
  pub name : Str

-- The entry at an offset; a name that would run over the end of the block is cut.
unfoldable pub entry_at : List ℕ → ℕ → Entry
entry_at block off = record {
  off = off;
  ino = le_at block off 4;
  rec_len = le_at block (off + 4) 2;
  name = slice (off + 8) (min (le_at block (off + 6) 1) (length block - off - 8)) block;
}

-- Whether the loop goes on to the entry at an offset.
unfoldable pub is_entry : List ℕ → ℕ → Bool
is_entry block off =
    leb (off + 8) (length block)
    && (leb 8 (le_at block (off + 4) 2) && leb (off + le_at block (off + 4) 2) (length block))

-- The closure changes a state of its own, and ends the walk by answering false. The walk takes at most
-- one step for every eight bytes of the block, so the length of the block is fuel enough.
unfoldable pub walk {ℓ} : {S : Type ℓ} → (S → Entry → S × Bool) → List ℕ → ℕ → ℕ → S → S
walk f block zero off s = s
walk f block (suc fuel) off s =
    let step = f s (entry_at block off) in
    let rest = walk f block fuel (off + le_at block (off + 4) 2) step.0 in
    if is_entry block off then (if step.1 then rest else step.0) else s

unfoldable pub for_each_entry {ℓ} : {S : Type ℓ} → (S → Entry → S × Bool) → List ℕ → S → S
for_each_entry f block s = walk f block (length block) 0 s

-- Whether an entry is in use and has the name.
unfoldable pub has_name : Str → Entry → Bool
has_name name e = not (e.ino == 0) && str_eq e.name name

unfoldable pub lookup_closure : Str → Option ℕ → Entry → Option ℕ × Bool
lookup_closure name found e = if has_name name e then (some e.ino, false) else (found, true)

unfoldable pub lookup_in_block : Str → List ℕ → Option ℕ
lookup_in_block name block = for_each_entry (lookup_closure name) block none

-- `n` blocks from index `i` on; a block that is missing ends the search.
unfoldable pub lookup_from : BlockDev → Superblock → Inode → Str → ℕ → ℕ → Option ℕ
lookup_from dev sb dir_ino name i zero = none
lookup_from dev sb dir_ino name i (suc n) =
    let rest = lookup_from dev sb dir_ino name (i + 1) n in
    elim (get_block dir_ino dev sb i) [
      | none ↦ none
      | some phys ↦ elim (lookup_in_block name (read_block dev sb phys)) [
        | none ↦ rest
        | some ino ↦ some ino
      ]
    ]

unfoldable pub num_blocks : Superblock → Inode → ℕ
num_blocks sb inode = (inode.size + block_size sb - 1) / block_size sb

unfoldable pub lookup_in_dir : BlockDev → Superblock → Inode → Str → Option ℕ
lookup_in_dir dev sb dir_ino name =
    lookup_from dev sb dir_ino name 0 (num_blocks sb dir_ino % 2 ^ 32)

abbrev dot : Str
dot = 46 ∷ []

abbrev dot_dot : Str
dot_dot = 46 ∷ 46 ∷ []

-- An inode that cannot be read is listed as a file.
unfoldable pub entry_type : Option Inode → FileType
entry_type none = file
entry_type (some inode) = if is_dir inode then directory else file

-- The parameter reads an inode.
unfoldable pub readdir_closure :
    (ℕ → Option Inode) → List (Str × FileType) → Entry → List (Str × FileType) × Bool
readdir_closure inode_of entries e = (
  if not (e.ino == 0) && is_utf8 e.name && not (str_eq e.name dot) && not (str_eq e.name dot_dot)
      then entries ++ (e.name, entry_type (inode_of e.ino)) ∷ []
      else entries,
  true,
)

-- Here a block that is missing is passed over.
unfoldable pub readdir_from :
    (ℕ → Option Inode)
    → BlockDev
    → Superblock
    → Inode
    → ℕ
    → ℕ
    → List (Str × FileType)
    → List (Str × FileType)
readdir_from inode_of dev sb dir_ino i zero entries = entries
readdir_from inode_of dev sb dir_ino i (suc n) entries =
    readdir_from inode_of dev sb dir_ino (i + 1) n (elim (get_block dir_ino dev sb i) [
      | none ↦ entries
      | some phys ↦ for_each_entry (readdir_closure inode_of) (read_block dev sb phys) entries
    ])

unfoldable pub readdir : Ext2State → Inode → List (Str × FileType)
readdir st dir_ino =
    readdir_from (read st.dev st.sb st.bgdt) st.dev st.sb dir_ino 0
      (num_blocks st.sb dir_ino % 2 ^ 32) []
