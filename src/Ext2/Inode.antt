-- ===== src/Ext2/Inode.antt =====
-- Inodes on disk: fs/src/ext2/inode.rs, the record, `read` and `write`.
use serix.Base.{
  ℕ, zero, suc, ◌+◌, ◌*◌, ◌/◌, ◌%◌, ◌^◌, Bool, List, [], ◌∷◌, Option, none, some, if◌then◌else◌,
  ◌==◌, ltb, length, slice, splice, le_at, put_le,
}
use serix.Block.{BlockDev}
use serix.Ext2.Superblock.{
  Superblock, block_size, inode_block_group, inode_local_index, read_block, write_block,
}
use serix.Ext2.Groups.{BgDesc, group_of}

pub record Inode : Type 0 where
  pub mode : ℕ
  pub links_count : ℕ
  pub size : ℕ
  pub blocks : ℕ
  pub block : List ℕ
  pub ino : ℕ

abbrev pub ifreg : ℕ
ifreg = 32768

abbrev pub ifdir : ℕ
ifdir = 16384

-- `mode & 0xF000 == EXT2_S_IFDIR`, for a mode of 16 bits
unfoldable pub is_dir : Inode → Bool
is_dir inode = inode.mode / 4096 * 4096 == ifdir

-- `n` entries of the block map from the byte `off` of a record on.
unfoldable pub parse_map : List ℕ → ℕ → ℕ → List ℕ
parse_map raw off zero = []
parse_map raw off (suc n) = le_at raw off 4 ∷ parse_map raw (off + 4) n

unfoldable pub put_map : List ℕ → ℕ → List ℕ → List ℕ
put_map [] off raw = raw
put_map (b ∷ bs) off raw = put_map bs (off + 4) (put_le off 4 b raw)

-- The record of 128 bytes.
unfoldable pub parse_inode : List ℕ → ℕ → Inode
parse_inode r ino = record {
  mode = le_at r 0 2;
  links_count = le_at r 26 2;
  size = le_at r 4 4;
  blocks = le_at r 28 4;
  block = parse_map r 40 15;
  ino = ino;
}

unfoldable pub put_inode : Inode → List ℕ → List ℕ
put_inode inode r =
    let head = put_le 26 2 inode.links_count (put_le 0 2 inode.mode r) in
    put_map inode.block 40 (put_le 28 4 inode.blocks (put_le 4 4 inode.size head))

-- The block of the inode table that holds an inode, and the place of the inode in it.
unfoldable pub table_block : Superblock → List BgDesc → ℕ → ℕ
table_block sb bgdt ino =
    let off = inode_local_index sb ino * sb.inode_size in
    ((group_of bgdt (inode_block_group sb ino)).inode_table + off / block_size sb) % 2 ^ 32

unfoldable pub table_offset : Superblock → ℕ → ℕ
table_offset sb ino = inode_local_index sb ino * sb.inode_size % block_size sb

unfoldable pub read : BlockDev → Superblock → List BgDesc → ℕ → Option Inode
read dev sb bgdt ino =
    let blk_data = read_block dev sb (table_block sb bgdt ino) in
    let off = table_offset sb ino in
    if ltb (length blk_data) (off + 128)
    then none
    else some (parse_inode (slice off 128 blk_data) ino)

-- A record that crosses the end of its block panics in the source, and is cut off here.
unfoldable pub write : Inode → BlockDev → Superblock → List BgDesc → BlockDev
write inode dev sb bgdt =
    let blk = table_block sb bgdt inode.ino in
    let off = table_offset sb inode.ino in
    let blk_data = read_block dev sb blk in
    write_block dev sb blk (splice off (put_inode inode (slice off 128 blk_data)) blk_data)
