-- ===== src/Ext2/Tests.antt =====
-- A small ext2 file system: its blocks, an inode and a directory block.
use serix.Base.{
  ℕ, ◌^◌, ◌<◌, ◌≡◌, inl, inr, refl, true, List, [], ◌∷◌, ◌++◌, none, some, arith, replicate, length,
  length-replicate, le_at, from_le, put_le, to_le, zero, suc, if◌then◌else◌, ◌==◌,
}
use serix.Block.{BlockDev, Works, Sized}
use serix.Vfs.Path.{Str}
use serix.Ext2.Superblock.{
  Superblock, block_size, sectors_per_block, block_to_sector, bgdt_block, num_block_groups,
  inode_local_index, read_block, write_block,
}
use serix.Ext2.Groups.{BgDesc, Ext2State}
use serix.Ext2.Inode
use serix.Ext2.Inode.{Inode, table_offset, table_block}
use serix.Ext2.Alloc.{alloc_block}
use serix.Ext2.Dir.{entry_at, lookup_in_block}
use serix.Ext2.DirEdit.{entry_size, insert_in_block, insert_from, split_last, remove_in_block}
use serix.Ext2.DirNode.{dot_entries}
use serix.Ext2.Blocks.{read_block-write_block}
use serix.Ext2.Records.{InRange, read-write_inode}
use serix.Ext2.Marks.{Separate, Marks, alloc_block-Marks}
use serix.Ext2.BlockMap.{get_block, set_block, nonzero, pointers}
use serix.Ext2.FileNode.{inode_of, read_file}
use serix.Ext2.FileBytes.{content, read_file-content}
use serix.Ext2.Pointers.{get_block-set_block}
use serix.Ext2.DirBlock.{Shows, Holds, last, next, find}
use serix.Ext2.DirBlock.Walk.{lookup_in_block-Holds}
use serix.Ext2.DirBlock.Split.{insert_in_block-Holds}
use serix.Ext2.DirBlock.Unlink.{Removes, remove_in_block-Removes}

abbrev disk : BlockDev
disk = record {
  sectors = λ s. replicate 512 0;
  readable = λ _. true;
  writable = λ _. true;
  count = 64;
}

disk-Works : Works disk
disk-Works = ((λ s. refl), (λ s. refl))

disk-Sized : Sized disk
disk-Sized s = length-replicate {A = ℕ} 512 0

abbrev sb : Superblock
sb = record {
  inodes_count = 16;
  blocks_count = 32;
  free_blocks = 20;
  free_inodes = 5;
  first_data_block = 1;
  log_block_size = 0;
  blocks_per_group = 8192;
  inodes_per_group = 16;
  magic = 61267;
  inode_size = 128;
  first_ino = 11;
}

abbrev bgdt : List BgDesc
bgdt =
    record {
      block_bitmap = 3;
      inode_bitmap = 4;
      inode_table = 5;
      free_blocks = 20;
      free_inodes = 5;
      used_dirs = 1;
    }
    ∷ []

abbrev state : Ext2State
state = record { dev = disk; sb = sb; bgdt = bgdt }

read_block-write_block_example :
    read_block (write_block disk sb 7 (replicate 1024 1)) sb 7
    ≡ (if 7 == 7 then replicate 1024 1 else read_block disk sb 7)
read_block-write_block_example =
    read_block-write_block disk sb disk-Works (omega arith) 7 7 (replicate 1024 1) (omega arith)
      (omega arith) (unfold block_size in refl)

abbrev inode : Inode
inode = record {
  mode = 33188;
  links_count = 1;
  size = 5;
  blocks = 2;
  block = 9 ∷ replicate 14 0;
  ino = 12;
}

inode_in_range : InRange inode
inode_in_range = (
  omega arith,
  omega arith,
  omega arith,
  omega arith,
  (
    omega arith,
    (
      omega arith,
      (
        omega arith,
        (
          omega arith,
          (
            omega arith,
            (
              omega arith,
              (
                omega arith,
                (
                  omega arith,
                  (
                    omega arith,
                    (
                      omega arith,
                      (omega arith, (omega arith, (omega arith, (omega arith, (omega arith, tt))))),
                    ),
                  ),
                ),
              ),
            ),
          ),
        ),
      ),
    ),
  ),
  refl,
)

read-write_inode_example :
    (Inode.read (Inode.write inode disk sb bgdt) sb bgdt 12 ≡ some inode)
    × (Inode.read (Inode.write inode disk sb bgdt) sb bgdt 2 ≡ Inode.read disk sb bgdt 2)
read-write_inode_example =
    read-write_inode disk sb bgdt disk-Works disk-Sized (omega arith) inode 2 inode_in_range
      (unfold table_offset inode_local_index block_size in omega arith)
      (inr (inl (unfold table_offset inode_local_index block_size in omega arith)))

-- The first block of a directory, with `.` and `..`.
abbrev dir_block : List ℕ
unfolding dot_entries
dir_block = dot_entries 48 2 2

abbrev listed : List (ℕ × Str)
listed = (2, 46 ∷ []) ∷ (2, 46 ∷ 46 ∷ []) ∷ []

dot_shown : Shows dir_block 0 12 2 (46 ∷ [])
unfolding dir_block le_at from_le entry_size entry_at put_le to_le
dot_shown = record {
  room = omega arith;
  size = omega arith;
  fits = omega arith;
  shows_len = refl;
  shows_ino = refl;
  shows_name = refl;
}

dot_dot_shown : Shows dir_block 12 36 2 (46 ∷ 46 ∷ [])
unfolding dir_block le_at from_le entry_size entry_at put_le to_le
dot_dot_shown = record {
  room = omega arith;
  size = omega arith;
  fits = omega arith;
  shows_len = refl;
  shows_ino = refl;
  shows_name = refl;
}

dir_holds : Holds dir_block 0 listed
unfolding dir_block put_le to_le
dir_holds = next dot_shown (last dot_dot_shown refl)

abbrev name_a : Str
name_a = 97 ∷ []

abbrev with_a : List ℕ
with_a = elim (insert_in_block dir_block 12 1 name_a) [ none ↦ [] | some b ↦ b ]

inserted : insert_in_block dir_block 12 1 name_a ≡ some with_a
unfolding dir_block insert_in_block insert_from split_last entry_size le_at from_le put_le to_le
inserted = refl

dot_small : length dir_block < 2 ^ 16
unfolding dir_block put_le to_le
dot_small = omega arith

insert_in_block-Holds_example :
    (length with_a ≡ length dir_block) × Holds with_a 0 (listed ++ (12, name_a) ∷ [])
insert_in_block-Holds_example =
    insert_in_block-Holds 12 1 name_a (omega arith) (omega arith) dir_block with_a listed dot_small
      dir_holds inserted

lookup_in_block-Holds_example :
    lookup_in_block (46 ∷ 46 ∷ []) dir_block ≡ find (46 ∷ 46 ∷ []) listed
lookup_in_block-Holds_example = lookup_in_block-Holds dir_block listed (46 ∷ 46 ∷ []) dir_holds

remove_in_block-Removes_example :
    Removes (46 ∷ 46 ∷ []) dir_block dot_small listed (remove_in_block (46 ∷ 46 ∷ []) dir_block)
remove_in_block-Removes_example =
    remove_in_block-Removes (46 ∷ 46 ∷ []) dir_block dot_small listed dir_holds

bitmap_apart : (g : ℕ) → g < num_block_groups sb → Separate state g
unfolding num_block_groups block_to_sector sectors_per_block block_size bgdt_block
bitmap_apart zero h = (omega arith, inr (omega arith))
bitmap_apart (suc g) h = absurd (omega (arith, h))

alloc_block-Marks_example : Marks state (alloc_block state)
alloc_block-Marks_example = alloc_block-Marks state disk-Works disk-Sized (omega arith) bitmap_apart

read_file-content_example : read_file state 12 0 4 ≡ content state 0 4 (inode_of state 12)
read_file-content_example = read_file-content state 12 0 4 disk-Works disk-Sized (omega arith)

-- An inode with a single indirect block.
abbrev long_inode : Inode
long_inode = record inode { block = replicate 12 9 ++ 20 ∷ 0 ∷ 0 ∷ [] }

get_block-set_block_example :
    get_block (set_block long_inode state 15 30).0 (set_block long_inode state 15 30).1.dev sb 16
    ≡ (if 15 == 16 then nonzero 30 else get_block long_inode disk sb 16)
unfolding pointers block_size
get_block-set_block_example =
    get_block-set_block state disk-Works disk-Sized (omega arith) long_inode 15 16 30 refl refl
      (omega arith) (omega arith) (omega arith)
