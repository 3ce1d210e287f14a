-- ===== src/Ext2/BlockMap.antt =====
-- The block map of an inode: `get_block` and `set_block` of fs/src/ext2/inode.rs, through the direct
-- blocks and the three levels of indirect blocks.
use serix.Base.{
  ℕ, ◌-◌, ◌*◌, ◌/◌, ◌%◌, ◌^◌, List, Option, none, some, ◌>>=◌, if◌then◌else◌, ◌==◌, ltb, get_or,
  set, replicate, le_at, put_le,
}
use serix.Block.{BlockDev}
use serix.Ext2.Superblock.{Superblock, block_size, read_block, write_block}
use serix.Ext2.Groups.{Ext2State}
use serix.Ext2.Alloc.{alloc_block}
use serix.Ext2.Inode.{Inode}

unfoldable pub u32_at : List ℕ → ℕ → ℕ
u32_at bytes idx = le_at bytes (idx * 4) 4

unfoldable pub write_u32_at : List ℕ → ℕ → ℕ → List ℕ
write_u32_at bytes idx val = put_le (idx * 4) 4 val bytes

-- How many block numbers an indirect block holds.
unfoldable pub pointers : Superblock → ℕ
pointers sb = block_size sb / 4 % 2 ^ 32

-- A block number, 0 standing for none.
abbrev pub nonzero : ℕ → Option ℕ
nonzero b = if b == 0 then none else some b

-- The number at an index of an indirect block.
unfoldable pub follow : BlockDev → Superblock → ℕ → ℕ → Option ℕ
follow dev sb idx b = nonzero (u32_at (read_block dev sb b) idx)

-- `n2` is below `ptrs * ptrs`
unfoldable pub get_double : BlockDev → Superblock → Inode → ℕ → Option ℕ
get_double dev sb inode n2 = do
  let ptrs = pointers sb
  dib ← nonzero (get_or inode.block 13 0)
  ib ← follow dev sb (n2 / ptrs) dib
  follow dev sb (n2 % ptrs) ib

unfoldable pub get_triple : BlockDev → Superblock → Inode → ℕ → Option ℕ
get_triple dev sb inode n3 = do
  let ptrs = pointers sb
  tib ← nonzero (get_or inode.block 14 0)
  ib2 ← follow dev sb (n3 / (ptrs * ptrs % 2 ^ 32)) tib
  ib ← follow dev sb (n3 / ptrs % ptrs) ib2
  follow dev sb (n3 % ptrs) ib

unfoldable pub get_single : BlockDev → Superblock → Inode → ℕ → Option ℕ
get_single dev sb inode n1 = do ib ← nonzero (get_or inode.block 12 0); follow dev sb n1 ib

unfoldable pub get_block : Inode → BlockDev → Superblock → ℕ → Option ℕ
get_block inode dev sb n =
    let ptrs = pointers sb in
    let n1 = n - 12 in
    let n2 = n1 - ptrs in
    if ltb n 12
    then nonzero (get_or inode.block n 0)
    else if ltb n1 ptrs
    then get_single dev sb inode n1
    else if ltb n2 (ptrs * ptrs % 2 ^ 32)
    then get_double dev sb inode n2
    else get_triple dev sb inode (n2 - ptrs * ptrs % 2 ^ 32)

-- A block from the allocator, or block 0 when there is none.
unfoldable pub alloc_or_zero : Ext2State → ℕ × Ext2State
alloc_or_zero st = let (b, st') = alloc_block st in (elim b [ none ↦ 0 | some p ↦ p ], st')

unfoldable pub write_to : Ext2State → ℕ → List ℕ → Ext2State
write_to st blk buf = record st { dev = write_block st.dev st.sb blk buf }

unfoldable pub zero_fill : Ext2State → ℕ → Ext2State
zero_fill st blk = write_to st blk (replicate (block_size st.sb) 0)

-- The indirect block of a slot of the inode, allocated and zeroed where the slot is empty.
unfoldable pub top_block : Ext2State → Inode → ℕ → Inode × Ext2State
top_block st inode slot =
    let ib = alloc_or_zero st in
    if get_or inode.block slot 0 == 0
    then (record inode { block = set inode.block slot ib.0 }, zero_fill ib.1 ib.0)
    else (inode, st)

-- The indirect block at an index of another, allocated, linked and zeroed where there is none.
unfoldable pub child_block : Ext2State → ℕ → ℕ → ℕ × Ext2State
child_block st parent idx =
    let buf = read_block st.dev st.sb parent in
    let ib = alloc_or_zero st in
    if u32_at buf idx == 0
    then (ib.0, zero_fill (write_to ib.1 parent (write_u32_at buf idx ib.0)) ib.0)
    else (u32_at buf idx, st)

-- A block number written at an index of an indirect block.
unfoldable pub put_pointer : Ext2State → ℕ → ℕ → ℕ → Ext2State
put_pointer st ib idx phys = write_to st ib (write_u32_at (read_block st.dev st.sb ib) idx phys)

unfoldable pub set_single : Ext2State → Inode → ℕ → ℕ → Inode × Ext2State
set_single st inode n1 phys =
    let top = top_block st inode 12 in (top.0, put_pointer top.1 (get_or top.0.block 12 0) n1 phys)

unfoldable pub set_double : Ext2State → Inode → ℕ → ℕ → Inode × Ext2State
set_double st inode n2 phys =
    let ptrs = pointers st.sb in
    let top = top_block st inode 13 in
    let ib = child_block top.1 (get_or top.0.block 13 0) (n2 / ptrs) in
    (top.0, put_pointer ib.1 ib.0 (n2 % ptrs) phys)

unfoldable pub set_triple : Ext2State → Inode → ℕ → ℕ → Inode × Ext2State
set_triple st inode n3 phys =
    let ptrs = pointers st.sb in
    let top = top_block st inode 14 in
    let ib2 = child_block top.1 (get_or top.0.block 14 0) (n3 / (ptrs * ptrs % 2 ^ 32)) in
    let ib = child_block ib2.1 ib2.0 (n3 / ptrs % ptrs) in
    (top.0, put_pointer ib.1 ib.0 (n3 % ptrs) phys)

unfoldable pub set_block : Inode → Ext2State → ℕ → ℕ → Inode × Ext2State
set_block inode st n phys =
    let ptrs = pointers st.sb in
    let n1 = n - 12 in
    let n2 = n1 - ptrs in
    if ltb n 12
    then (record inode { block = set inode.block n phys }, st)
    else if ltb n1 ptrs
    then set_single st inode n1 phys
    else if ltb n2 (ptrs * ptrs % 2 ^ 32)
    then set_double st inode n2 phys
    else set_triple st inode (n2 - ptrs * ptrs % 2 ^ 32) phys
