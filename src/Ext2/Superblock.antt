-- ===== src/Ext2/Superblock.antt =====
-- The superblock: fs/src/ext2/superblock.rs, and the block transfers of the other files of fs/src/ext2.
use serix.Base.{
  ℕ, ◌+◌, ◌-◌, ◌*◌, ◌/◌, ◌%◌, ◌^◌, max, List, ◌++◌, Option, none, some, if◌then◌else◌, ◌==◌, ◌>>=◌,
  take, drop, le_at, put_le,
}
use serix.Block.{BlockDev, read_sector, write_sector, read_sectors, write_sectors}

pub record Superblock : Type 0 where
  pub inodes_count : ℕ
  pub blocks_count : ℕ
  pub free_blocks : ℕ
  pub free_inodes : ℕ
  pub first_data_block : ℕ
  pub log_block_size : ℕ
  pub blocks_per_group : ℕ
  pub inodes_per_group : ℕ
  pub magic : ℕ
  pub inode_size : ℕ
  pub first_ino : ℕ

abbrev pub ext2_magic : ℕ
ext2_magic = 61267

abbrev pub superblock_sector : ℕ
superblock_sector = 2

-- The fields of a raw superblock.
unfoldable pub parse : List ℕ → Superblock
parse raw = record {
  inodes_count = le_at raw 0 4;
  blocks_count = le_at raw 4 4;
  free_blocks = le_at raw 12 4;
  free_inodes = le_at raw 16 4;
  first_data_block = le_at raw 20 4;
  log_block_size = le_at raw 24 4;
  blocks_per_group = le_at raw 32 4;
  inodes_per_group = le_at raw 40 4;
  magic = le_at raw 56 2;
  inode_size = le_at raw 88 2;
  first_ino = le_at raw 84 4;
}

-- The two sectors of the superblock, when both can be read.
unfoldable pub raw_superblock : BlockDev → Option (List ℕ)
raw_superblock dev = do
  s2 ← read_sector dev superblock_sector
  s3 ← read_sector dev (superblock_sector + 1)
  some (s2 ++ s3)

unfoldable pub read : BlockDev → Option Superblock
read dev = elim (raw_superblock dev) [
  | none ↦ none
  | some raw ↦ if le_at raw 56 2 == ext2_magic then some (parse raw) else none
]

-- The raw superblock with the free counts put in.
unfoldable pub with_counts : Superblock → List ℕ → List ℕ
with_counts sb raw = put_le 16 4 sb.free_inodes (put_le 12 4 sb.free_blocks raw)

unfoldable pub write_free_counts : Superblock → BlockDev → BlockDev
write_free_counts sb dev = elim (raw_superblock dev) [
  | none ↦ dev
  | some raw ↦
      let new = with_counts sb raw in
      let dev2 = (write_sector dev superblock_sector (take 512 new)).1 in
      (write_sector dev2 (superblock_sector + 1) (drop 512 new)).1
]

-- `1024 << log_block_size`: the shift takes the low six bits of its count.
unfoldable pub block_size : Superblock → ℕ
block_size sb = 1024 * 2 ^ (sb.log_block_size % 64) % 2 ^ 64

unfoldable pub sectors_per_block : Superblock → ℕ
sectors_per_block sb = block_size sb / 512

unfoldable pub block_to_sector : Superblock → ℕ → ℕ
block_to_sector sb block = block * sectors_per_block sb % 2 ^ 64

-- Zero blocks or inodes per group make the divisions below panic in the source.
unfoldable pub num_block_groups : Superblock → ℕ
num_block_groups sb =
    max ((sb.blocks_count + (sb.blocks_per_group + 2 ^ 64 - 1)) % 2 ^ 64 / sb.blocks_per_group) 1

unfoldable pub bgdt_block : Superblock → ℕ
bgdt_block sb = (sb.first_data_block + 1) % 2 ^ 32

unfoldable pub inode_block_group : Superblock → ℕ → ℕ
inode_block_group sb ino = (ino + (2 ^ 32 - 1)) % 2 ^ 32 / sb.inodes_per_group

unfoldable pub inode_local_index : Superblock → ℕ → ℕ
inode_local_index sb ino = (ino + (2 ^ 32 - 1)) % 2 ^ 32 % sb.inodes_per_group

-- One block of the file system, read or written sector by sector.
unfoldable pub read_block : BlockDev → Superblock → ℕ → List ℕ
read_block dev sb blk = read_sectors dev (block_to_sector sb blk) (sectors_per_block sb)

unfoldable pub write_block : BlockDev → Superblock → ℕ → List ℕ → BlockDev
write_block dev sb blk buf = write_sectors dev (block_to_sector sb blk) (sectors_per_block sb) buf
