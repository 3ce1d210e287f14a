-- ===== src/Ext2/Groups.antt =====
-- The block group descriptors: fs/src/ext2/bgdt.rs, and the state of a mounted file system,
-- Ext2State of fs/src/ext2/inode_impl.rs.
use serix.Base.{ℕ, zero, suc, ◌+◌, ◌-◌, ◌*◌, ◌/◌, ◌%◌, List, [], ◌∷◌, ◌++◌, le_at, put_le, get_or}
use serix.Block.{BlockDev, read_sectors, write_sectors}
use serix.Ext2.Superblock.{
  Superblock, block_size, sectors_per_block, block_to_sector, bgdt_block, num_block_groups,
}

pub record BgDesc : Type 0 where
  pub block_bitmap : ℕ
  pub inode_bitmap : ℕ
  pub inode_table : ℕ
  pub free_blocks : ℕ
  pub free_inodes : ℕ
  pub used_dirs : ℕ

pub record Ext2State : Type 0 where
  pub dev : BlockDev
  pub sb : Superblock
  pub bgdt : List BgDesc

-- The descriptor at a byte offset.
unfoldable pub parse_desc : List ℕ → ℕ → BgDesc
parse_desc raw off = record {
  block_bitmap = le_at raw off 4;
  inode_bitmap = le_at raw (off + 4) 4;
  inode_table = le_at raw (off + 8) 4;
  free_blocks = le_at raw (off + 12) 2;
  free_inodes = le_at raw (off + 14) 2;
  used_dirs = le_at raw (off + 16) 2;
}

-- Its bytes put in at an offset; the last 14 of the 32 stay.
unfoldable pub put_desc : BgDesc → ℕ → List ℕ → List ℕ
put_desc e off buf = put_le (off + 16) 2 e.used_dirs (
    put_le (off + 14) 2 e.free_inodes (
      put_le (off + 12) 2 e.free_blocks (
        put_le (off + 8) 4 e.inode_table
          (put_le (off + 4) 4 e.inode_bitmap (put_le off 4 e.block_bitmap buf)))))

-- `n` blocks of `spb` sectors from a sector on.
unfoldable pub read_table : BlockDev → ℕ → ℕ → ℕ → List ℕ
read_table dev sector spb zero = []
read_table dev sector spb (suc n) =
    read_sectors dev sector spb ++ read_table dev (sector + spb) spb n

-- `n` descriptors from index `i` on.
unfoldable pub parse_table : List ℕ → ℕ → ℕ → List BgDesc
parse_table raw i zero = []
parse_table raw i (suc n) = parse_desc raw (i * 32) ∷ parse_table raw (i + 1) n

unfoldable pub read : BlockDev → Superblock → List BgDesc
read dev sb =
    let n = num_block_groups sb in
    let bsz = block_size sb in
    let start = block_to_sector sb (bgdt_block sb) in
    let raw = read_table dev start (sectors_per_block sb) ((n * 32 + bsz - 1) / bsz) in
    parse_table raw 0 n

abbrev pub no_desc : BgDesc
no_desc = record {
  block_bitmap = 0;
  inode_bitmap = 0;
  inode_table = 0;
  free_blocks = 0;
  free_inodes = 0;
  used_dirs = 0;
}

-- A group that the table does not have panics in the source, and is a blank descriptor here.
abbrev pub group_of : List BgDesc → ℕ → BgDesc
group_of bgdt g = get_or bgdt g no_desc

-- The block of the table that holds the descriptor is read, patched and written back.
unfoldable pub write_entry : List BgDesc → BlockDev → Superblock → ℕ → BlockDev
write_entry bgdt dev sb group =
    let spb = sectors_per_block sb in
    let bsz = block_size sb in
    let base = block_to_sector sb (bgdt_block sb) + group * 32 / bsz * spb in
    let buf = read_sectors dev base spb in
    write_sectors dev base spb (put_desc (group_of bgdt group) (group * 32 % bsz) buf)
