-- ===== src/Ext2/Alloc.antt =====
-- Allocation of blocks and inodes: fs/src/ext2/bitmap_alloc.rs. The bitmaps are those of Bitmap.
use serix.Base.{
  ℕ, zero, suc, ◌+◌, ◌-◌, ◌*◌, ◌/◌, ◌%◌, ◌^◌, List, Option, none, some, if◌then◌else◌, ◌==◌, set,
}
use serix.Block.{BlockDev}
use serix.Bitmap.{find_free_bit, set_bit, clear_bit}
use serix.Ext2.Superblock.{
  Superblock, num_block_groups, inode_block_group, inode_local_index, read_block, write_block,
  write_free_counts,
}
use serix.Ext2.Groups.{BgDesc, Ext2State, group_of, write_entry}

-- A descriptor and the superblock's counts, changed in memory and written to the disk.
unfoldable pub store_counts : Ext2State → BlockDev → ℕ → BgDesc → Superblock → Ext2State
store_counts st dev g desc sb =
    let bgdt = set st.bgdt g desc in
    record { dev = write_free_counts sb (write_entry bgdt dev st.sb g); sb = sb; bgdt = bgdt }

-- The bit of a block taken in its group.
unfoldable pub take_block : Ext2State → ℕ → List ℕ → ℕ → Ext2State
take_block st g bitmap bit =
    let bg = group_of st.bgdt g in
    let dev = write_block st.dev st.sb bg.block_bitmap (set_bit bitmap bit) in
    store_counts st dev g (record bg { free_blocks = bg.free_blocks - 1 })
      (record st.sb { free_blocks = st.sb.free_blocks - 1 })

-- The search from group `g` on, over `n` groups.
unfoldable pub alloc_block_from : ℕ → ℕ → Ext2State → Option ℕ × Ext2State
alloc_block_from g zero st = (none, st)
alloc_block_from g (suc n) st =
    let rest = alloc_block_from (g + 1) n st in
    let bg = group_of st.bgdt g in
    let bitmap = read_block st.dev st.sb bg.block_bitmap in
    if bg.free_blocks == 0 then rest else elim (find_free_bit bitmap) [
      | none ↦ rest
      | some bit ↦ (some ((g * st.sb.blocks_per_group + bit) % 2 ^ 32), take_block st g bitmap bit)
    ]

unfoldable pub alloc_block : Ext2State → Option ℕ × Ext2State
alloc_block st = alloc_block_from 0 (num_block_groups st.sb) st

unfoldable pub free_block : Ext2State → ℕ → Ext2State
free_block st block =
    let g = block / st.sb.blocks_per_group in
    let bg = group_of st.bgdt g in
    let bitmap = read_block st.dev st.sb bg.block_bitmap in
    let new = clear_bit bitmap (block % st.sb.blocks_per_group) in
    store_counts st (write_block st.dev st.sb bg.block_bitmap new) g
      (record bg { free_blocks = (bg.free_blocks + 1) % 2 ^ 16 })
      (record st.sb { free_blocks = (st.sb.free_blocks + 1) % 2 ^ 32 })

unfoldable pub take_inode : Ext2State → ℕ → List ℕ → ℕ → Ext2State
take_inode st g bitmap bit =
    let bg = group_of st.bgdt g in
    let dev = write_block st.dev st.sb bg.inode_bitmap (set_bit bitmap bit) in
    store_counts st dev g (record bg { free_inodes = bg.free_inodes - 1 })
      (record st.sb { free_inodes = st.sb.free_inodes - 1 })

unfoldable pub alloc_inode_from : ℕ → ℕ → Ext2State → Option ℕ × Ext2State
alloc_inode_from g zero st = (none, st)
alloc_inode_from g (suc n) st =
    let rest = alloc_inode_from (g + 1) n st in
    let bg = group_of st.bgdt g in
    let bitmap = read_block st.dev st.sb bg.inode_bitmap in
    if bg.free_inodes == 0 then rest else elim (find_free_bit bitmap) [
      | none ↦ rest
      | some bit ↦
          (some ((g * st.sb.inodes_per_group + bit + 1) % 2 ^ 32), take_inode st g bitmap bit)
    ]

unfoldable pub alloc_inode : Ext2State → Option ℕ × Ext2State
alloc_inode st = alloc_inode_from 0 (num_block_groups st.sb) st

unfoldable pub free_inode : Ext2State → ℕ → Ext2State
free_inode st ino =
    let g = inode_block_group st.sb ino in
    let bg = group_of st.bgdt g in
    let bitmap = read_block st.dev st.sb bg.inode_bitmap in
    let new = clear_bit bitmap (inode_local_index st.sb ino) in
    store_counts st (write_block st.dev st.sb bg.inode_bitmap new) g
      (record bg { free_inodes = (bg.free_inodes + 1) % 2 ^ 16 })
      (record st.sb { free_inodes = (st.sb.free_inodes + 1) % 2 ^ 32 })
