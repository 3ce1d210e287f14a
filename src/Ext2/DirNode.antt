-- ===== src/Ext2/DirNode.antt =====
-- Directories of ext2 as the VFS calls them: Ext2DirINode of fs/src/ext2/inode_impl.rs. A call that
-- fails leaves what was written before the failure.
use serix.Base.{
  ℕ, zero, suc, ◌+◌, ◌-◌, ◌%◌, ◌^◌, List, ◌∷◌, Option, none, some, ◌>>=◌, if◌then◌else◌, set,
  replicate, put_le,
}
use serix.Vfs.{FileType}
use serix.Vfs.Path.{Str}
use serix.Ext2.Superblock.{Superblock, block_size, sectors_per_block, inode_block_group}
use serix.Ext2.Groups.{Ext2State, group_of, write_entry}
use serix.Ext2.Alloc.{alloc_block, alloc_inode, free_block, free_inode}
use serix.Ext2.Inode.{Inode, ifreg, ifdir, is_dir, write}
use serix.Ext2.BlockMap.{get_block, write_to}
use serix.Ext2.Dir.{ft_reg_file, ft_dir, lookup_in_dir, num_blocks, readdir}
use serix.Ext2.DirEdit.{add_entry, remove_entry}
use serix.Ext2.FileNode.{inode_of}

-- The nodes that a lookup answers, each with its inode number.
pub data Node : Type 0 where
  file_node dir_node : ℕ → Node

unfoldable pub lookup : Ext2State → ℕ → Str → Option Node
lookup st ino name = do
  dir_inode ← inode_of st ino
  child_ino ← lookup_in_dir st.dev st.sb dir_inode name
  child ← inode_of st child_ino
  some (if is_dir child then dir_node child_ino else file_node child_ino)

unfoldable pub list_dir : Ext2State → ℕ → Option (List (Str × FileType))
list_dir st ino = do dir_inode ← inode_of st ino; some (readdir st dir_inode)

-- The messages of the errors.
pub data Error : Type 0 where
  no_free_inodes no_free_blocks parent_unreadable use_create not_found : Error
  dir_unreadable child_unreadable entry_not_found : Error

pub data Result (A : Type 0) : Type 0 where
  ok : A → Result A
  err : Error → Result A

-- A call on the locked state; the state comes back after an error too.
abbrev pub Call : Type 0 → Type 0
Call A = Ext2State → Result A × Ext2State

infixl 5 ◌>>>◌
abbrev pub ◌>>>◌ : {A B : Type 0} → Call A → (A → Call B) → Call B
◌>>>◌ m f st = let (r, st') = m st in elim r [ ok a ↦ f a st' | err e ↦ (err e, st') ]

abbrev pub give : {A : Type 0} → A → Call A
give a st = (ok a, st)

abbrev pub change : (Ext2State → Ext2State) → Call (Unit {0})
change f st = (ok tt, f st)

-- `ok_or`
abbrev pub or_raise : {A : Type 0} → (Ext2State → Option A × Ext2State) → Error → Call A
or_raise m e st = let (o, st') = m st in (elim o [ none ↦ err e | some a ↦ ok a ], st')

-- The first block of a new directory: `.` and `..`.
unfoldable pub dot_entries : ℕ → ℕ → ℕ → List ℕ
dot_entries bsz child parent =
    let first =
      set (set (set (put_le 4 2 12 (put_le 0 4 child (replicate bsz 0))) 6 1) 7 ft_dir) 8 46 in
    let second = put_le 16 2 ((bsz - 12) % 2 ^ 16) (put_le 12 4 parent first) in
    set (set (set (set second 18 2) 19 ft_dir) 20 46) 21 46

unfoldable pub new_dir : Superblock → ℕ → ℕ → Inode
new_dir sb ino blk = record {
  mode = ifdir + 493;
  links_count = 2;
  size = block_size sb % 2 ^ 32;
  blocks = sectors_per_block sb % 2 ^ 32;
  block = blk ∷ replicate 14 0;
  ino = ino;
}

unfoldable pub new_file : ℕ → Inode
new_file ino = record {
  mode = ifreg + 420;
  links_count = 1;
  size = 0;
  blocks = 0;
  block = replicate 15 0;
  ino = ino;
}

unfoldable pub store_inode : Inode → Ext2State → Ext2State
store_inode inode st = record st { dev = write inode st.dev st.sb st.bgdt }

-- An entry added to the directory whose inode is `ino`.
unfoldable pub add_child : ℕ → Str → ℕ → ℕ → Call (Unit {0})
add_child ino name child_ino file_type =
    or_raise (λ st. (inode_of st ino, st)) parent_unreadable >>> λ parent.
    change (λ st. (add_entry parent child_ino name file_type st).1)

-- `used_dirs` of the group that holds the parent, counted up.
unfoldable pub count_dir : ℕ → Ext2State → Ext2State
count_dir ino st =
    let g = inode_block_group st.sb ino in
    let bg = group_of st.bgdt g in
    let bgdt = set st.bgdt g (record bg { used_dirs = (bg.used_dirs + 1) % 2 ^ 16 }) in
    record st { dev = write_entry bgdt st.dev st.sb g; bgdt = bgdt }

unfoldable pub mkdir : ℕ → Str → Call (Unit {0})
mkdir ino name = or_raise alloc_inode no_free_inodes >>> λ child_ino.
    or_raise alloc_block no_free_blocks >>> λ blk.
    change (λ st. write_to st blk (dot_entries (block_size st.sb) child_ino ino)) >>> λ _.
    change (λ st. store_inode (new_dir st.sb child_ino blk) st) >>> λ _.
    add_child ino name child_ino ft_dir >>> λ _. change (count_dir ino)

unfoldable pub create_file : ℕ → Str → Call Node
create_file ino name = or_raise alloc_inode no_free_inodes >>> λ child_ino.
    change (store_inode (new_file child_ino)) >>> λ _.
    add_child ino name child_ino ft_reg_file >>> λ _. give (file_node child_ino)

unfoldable pub insert : ℕ → Str → Node → Call (Unit {0})
insert ino name node st = (err use_create, st)

-- The blocks of a file from index `i` on, given back.
unfoldable pub free_blocks : Inode → ℕ → ℕ → Ext2State → Ext2State
free_blocks inode i zero st = st
free_blocks inode i (suc n) st =
    free_blocks inode (i + 1) n
      (elim (get_block inode st.dev st.sb i) [ none ↦ st | some phys ↦ free_block st phys ])

unfoldable pub unlink : ℕ → Str → Call (Unit {0})
unlink ino name = or_raise (λ st. (inode_of st ino, st)) dir_unreadable >>> λ dir_inode.
    or_raise (λ st. (lookup_in_dir st.dev st.sb dir_inode name, st)) not_found >>> λ child_ino.
    or_raise (λ st. (inode_of st child_ino, st)) child_unreadable >>> λ child.
    change (λ st. free_blocks child 0 (num_blocks st.sb child % 2 ^ 32) st) >>> λ _.
    change (λ st. free_inode st child_ino) >>> λ _.
    or_raise
      (λ st.
        let (removed, st') = remove_entry dir_inode name st in
        (if removed then some tt else none, st'))
      entry_not_found
