-- ===== src/Ext2/FileNode.antt =====
-- Files of ext2 as the VFS calls them: Ext2FileINode of fs/src/ext2/inode_impl.rs.
use serix.Base.{
  gather, ◌>>=◌, ℕ, zero, suc, ◌+◌, ◌-◌, ◌/◌, ◌%◌, ◌^◌, min, List, [], Option, none, some,
  if◌then◌else◌, ◌==◌, ltb, leb, length, splice, take, drop,
}
use serix.Ext2.Superblock.{block_size, sectors_per_block, read_block}
use serix.Ext2.Groups.{Ext2State}
use serix.Ext2.Alloc.{alloc_block}
use serix.Ext2.Inode.{Inode, read, write}
use serix.Ext2.BlockMap.{get_block, set_block, write_to, zero_fill}

unfoldable pub inode_of : Ext2State → ℕ → Option Inode
inode_of st ino = read st.dev st.sb st.bgdt ino

-- The block of a file at an index.
unfoldable pub file_block : Ext2State → Inode → ℕ → Option (List ℕ)
file_block st inode i = do
  phys ← get_block inode st.dev st.sb (i % 2 ^ 32)
  some (read_block st.dev st.sb phys)

-- The bytes that a read puts into the buffer.
unfoldable pub read_file : Ext2State → ℕ → ℕ → ℕ → List ℕ
read_file st ino offset len = elim (inode_of st ino) [
  | none ↦ []
  | some inode ↦
      if leb inode.size offset
      then []
      else let to_read = min len (inode.size - offset) in
        gather (block_size st.sb) (file_block st inode) to_read offset to_read
]

-- The block at an index, allocated and zeroed where the file has none.
unfoldable pub block_for_write : Ext2State → Inode → ℕ → Option ℕ × Inode × Ext2State
block_for_write st inode idx =
    let (b, st1) = alloc_block st in
    elim (get_block inode st.dev st.sb idx) [
      | some p ↦ (some p, inode, st)
      | none ↦ elim b [
        | none ↦ (none, inode, st1)
        | some p ↦
            let (grown, st2) = set_block inode (zero_fill st1 p) idx p in
            (
              some p,
              record grown { blocks = (grown.blocks + sectors_per_block st2.sb) % 2 ^ 32 },
              st2,
            )
      ]
    ]

-- The loop of a write: how many bytes were written, the inode and the state.
unfoldable pub write_loop : ℕ → Ext2State → Inode → ℕ → List ℕ → ℕ → ℕ × Inode × Ext2State
write_loop zero st inode pos buf done = (done, inode, st)
write_loop (suc fuel) st inode pos buf done =
    let bsz = block_size st.sb in
    let avail = min (bsz - pos % bsz) (length buf) in
    let (b, grown, st1) = block_for_write st inode (pos / bsz % 2 ^ 32) in
    let phys : ℕ = elim b [ none ↦ 0 | some p ↦ p ] in
    let block = splice (pos % bsz) (take avail buf) (read_block st1.dev st1.sb phys) in
    let rest =
      write_loop fuel (write_to st1 phys block) grown (pos + avail) (drop avail buf)
        (done + avail) in
    if length buf == 0
    then (done, inode, st)
    else elim b [ none ↦ (done, grown, st1) | some _ ↦ rest ]

unfoldable pub write_file : Ext2State → ℕ → ℕ → List ℕ → ℕ × Ext2State
write_file st ino offset buf = if length buf == 0 then (0, st) else elim (inode_of st ino) [
  | none ↦ (0, st)
  | some inode ↦
      let (done, inode1, st1) = write_loop (length buf) st inode offset buf 0 in
      let size =
        if ltb inode1.size (offset + done) then (offset + done) % 2 ^ 32 else inode1.size in
      (done, record st1 { dev = write (record inode1 { size = size }) st1.dev st1.sb st1.bgdt })
]

unfoldable pub file_size : Ext2State → ℕ → ℕ
file_size st ino = elim (inode_of st ino) [ none ↦ 0 | some inode ↦ inode.size ]
