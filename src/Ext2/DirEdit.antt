-- ===== src/Ext2/DirEdit.antt =====
-- Changes to directories: `add_entry`, `remove_entry` and `write_dir_entry` of fs/src/ext2/dir.rs.
use serix.Base.{
  ℕ, zero, suc, ◌+◌, ◌-◌, ◌*◌, ◌/◌, ◌%◌, ◌^◌, Bool, true, false, List, Option, none, some,
  if◌then◌else◌, ltb, leb, length, take, replicate, splice, le_at, put_le,
}
use serix.Vfs.Path.{Str}
use serix.Ext2.Superblock.{block_size, sectors_per_block, read_block}
use serix.Ext2.Groups.{Ext2State}
use serix.Ext2.Alloc.{alloc_block}
use serix.Ext2.Inode.{Inode, write}
use serix.Ext2.BlockMap.{get_block, set_block, write_to}
use serix.Ext2.Dir.{Entry, for_each_entry, has_name, num_blocks}

unfoldable pub write_dir_entry : List ℕ → ℕ → ℕ → ℕ → ℕ → ℕ → Str → List ℕ
write_dir_entry block off ino rec_len name_len file_type name =
    let head = put_le (off + 4) 2 rec_len (put_le off 4 ino block) in
    splice (off + 8) (take name_len name)
      (put_le (off + 7) 1 file_type (put_le (off + 6) 1 name_len head))

-- The size of an entry with a name of `n` bytes: `(8 + n + 3) & !3`.
unfoldable pub entry_size : ℕ → ℕ
entry_size n = (8 + n + 3) / 4 * 4

-- The last entry of a block, at `off`, shrunk to its size, and a new one put after it. The difference of
-- the sizes wraps around where the entry is shorter than its name.
unfoldable pub split_last : List ℕ → ℕ → ℕ → ℕ → Str → Option (List ℕ)
split_last block off child_ino file_type name =
    let rec_len = le_at block (off + 4) 2 in
    let actual = entry_size (le_at block (off + 6) 1) in
    let slack = (rec_len + (2 ^ 64 - actual)) % 2 ^ 64 in
    let shrunk = put_le (off + 4) 2 actual block in
    let new =
      write_dir_entry shrunk (off + actual) child_ino (slack % 2 ^ 16) (length name % 256) file_type
        name in
    if leb (entry_size (length name) % 2 ^ 16) slack then some new else none

-- The walk to the last entry, one step for every eight bytes at most.
unfoldable pub insert_from : List ℕ → ℕ → ℕ → ℕ → ℕ → Str → Option (List ℕ)
insert_from block zero off child_ino file_type name = none
insert_from block (suc fuel) off child_ino file_type name =
    let rec_len = le_at block (off + 4) 2 in
    let rest = insert_from block fuel (off + rec_len) child_ino file_type name in
    if ltb (length block) (off + 8)
    then none
    else if ltb rec_len 8
    then none
    else if leb (length block) (off + rec_len)
    then split_last block off child_ino file_type name
    else rest

unfoldable pub insert_in_block : List ℕ → ℕ → ℕ → Str → Option (List ℕ)
insert_in_block block child_ino file_type name =
    insert_from block (length block) 0 child_ino file_type name

-- The blocks that the directory has, from index `i` on: whether the entry was put in one.
unfoldable pub add_from : Inode → ℕ → Str → ℕ → ℕ → ℕ → Ext2State → Option Ext2State
add_from dir_ino child_ino name file_type i zero st = none
add_from dir_ino child_ino name file_type i (suc n) st =
    let rest = add_from dir_ino child_ino name file_type (i + 1) n st in
    elim (get_block dir_ino st.dev st.sb i) [
      | none ↦ rest
      | some phys ↦ elim (insert_in_block (read_block st.dev st.sb phys) child_ino file_type name) [
        | none ↦ rest
        | some block ↦ some (write_to st phys block)
      ]
    ]

-- The entry alone in a new block at the end of the directory.
unfoldable pub append_block : Inode → ℕ → Str → ℕ → Ext2State → Inode × Ext2State
append_block dir_ino child_ino name file_type st =
    let bsz = block_size st.sb in
    let (b, st1) = alloc_block st in
    elim b [
      | none ↦ (dir_ino, st1)
      | some phys ↦
          let zeros = replicate bsz 0 in
          let block =
            write_dir_entry zeros 0 child_ino (bsz % 2 ^ 16) (length name % 256) file_type name in
          let (inode, st2) =
            set_block dir_ino (write_to st1 phys block) (num_blocks st.sb dir_ino % 2 ^ 32) phys in
          let grown = record inode {
            size = (inode.size + bsz) % 2 ^ 32;
            blocks = (inode.blocks + sectors_per_block st.sb) % 2 ^ 32;
          } in
          (grown, record st2 { dev = write grown st2.dev st2.sb st2.bgdt })
    ]

unfoldable pub add_entry : Inode → ℕ → Str → ℕ → Ext2State → Inode × Ext2State
add_entry dir_ino child_ino name file_type st =
    elim (add_from dir_ino child_ino name file_type 0 (num_blocks st.sb dir_ino % 2 ^ 32) st) [
      | none ↦ append_block dir_ino child_ino name file_type st
      | some st' ↦ (dir_ino, st')
    ]

-- What the closure of `remove_entry` changes: the entry found with the one before it, and the last
-- entry that was passed.
pub record Search : Type 0 where
  pub found : Option (ℕ × Option ℕ × ℕ)
  pub prev : Option ℕ

unfoldable pub remove_closure : Str → Search → Entry → Search × Bool
remove_closure name s e =
    if has_name name e
    then (record s { found = some (e.off, s.prev, e.rec_len) }, false)
    else (record s { prev = some e.off }, true)

-- The inode number is zeroed, and the entry before it takes its bytes over.
unfoldable pub unlink_entry : List ℕ → ℕ → Option ℕ → ℕ → List ℕ
unlink_entry block cur none rec_len = put_le cur 4 0 block
unlink_entry block cur (some prev) rec_len =
    put_le (prev + 4) 2 ((le_at (put_le cur 4 0 block) (prev + 4) 2 + rec_len) % 2 ^ 16)
      (put_le cur 4 0 block)

unfoldable pub remove_in_block : Str → List ℕ → Option (List ℕ)
remove_in_block name block =
    let start : Search = record { found = none; prev = none } in
    elim ((for_each_entry (remove_closure name) block start).found) [
      | none ↦ none
      | some (cur, prev, rec_len) ↦ some (unlink_entry block cur prev rec_len)
    ]

unfoldable pub remove_from : Inode → Str → ℕ → ℕ → Ext2State → Bool × Ext2State
remove_from dir_ino name i zero st = (false, st)
remove_from dir_ino name i (suc n) st =
    let rest = remove_from dir_ino name (i + 1) n st in
    elim (get_block dir_ino st.dev st.sb i) [
      | none ↦ rest
      | some phys ↦ elim (remove_in_block name (read_block st.dev st.sb phys)) [
        | none ↦ rest
        | some block ↦ (true, write_to st phys block)
      ]
    ]

unfoldable pub remove_entry : Inode → Str → Ext2State → Bool × Ext2State
remove_entry dir_ino name st = remove_from dir_ino name 0 (num_blocks st.sb dir_ino % 2 ^ 32) st
