-- ===== src/Ext2/FileBytes.antt =====
-- What a read of a file answers: `read` of Ext2FileINode in fs/src/ext2/inode_impl.rs, byte by byte.
use serix.Base.{
  ℕ, ◌-◌, ◌%◌, ◌^◌, min, ◌≡◌, refl, sym, ap, ◌∙◌, List, [], Option, none, some, arith, inl, inr,
  if◌then◌else◌, leb, length, Bool-cases, Option-cases, some_inj, none≢some, bytes, gather,
  Divides-pos, gather-bytes,
}
use serix.Block.{Sized, Works}
use serix.Ext2.Superblock.{block_size, read_block}
use serix.Ext2.Groups.{Ext2State}
use serix.Ext2.Inode.{Inode}
use serix.Ext2.BlockMap.{get_block}
use serix.Ext2.FileNode.{inode_of, file_block, read_file}
use serix.Ext2.Blocks.{SizeOk, sectors_lem, length-read_block}

file_block-length :
    (st : Ext2State) (inode : Inode) (i : ℕ) (block : List ℕ)
    → Works st.dev
    → Sized st.dev
    → SizeOk st.sb
    → file_block st inode i ≡ some block
    → length block ≡ block_size st.sb
unfolding file_block
file_block-length st inode i block w z s e =
    elim (Option-cases (get_block inode st.dev st.sb (i % 2 ^ 32))) [
      | inl q ↦ absurd (none≢some (rw q at e))
      | inr (phys, q) ↦
          let r : read_block st.dev st.sb phys ≡ block = some_inj (rw q at e) in
          ap length (sym r) ∙ length-read_block st.dev st.sb w s phys z
    ]

-- The bytes of a file that a read should answer: from the offset on, as many as were asked for and as
-- the size of the file leaves, up to the first in a block that the file does not have.
abbrev pub content : Ext2State → ℕ → ℕ → Option Inode → List ℕ
content st offset len none = []
content st offset len (some inode) =
    bytes (block_size st.sb) (file_block st inode) offset (min len (inode.size - offset))

in_file :
    (st : Ext2State) (offset len : ℕ) (inode : Inode)
    → Works st.dev
    → Sized st.dev
    → SizeOk st.sb
    → (if leb inode.size offset
        then []
        else gather
            (block_size st.sb)
            (file_block st inode)
            (min len (inode.size - offset))
            offset
            (min len (inode.size - offset)))
      ≡ content st offset len (some inode)
in_file st offset len inode w z s =
    let n = min len (inode.size - offset) in
    let g =
      gather-bytes (block_size st.sb) (file_block st inode)
        (Divides-pos (block_size st.sb) (omega (arith, sectors_lem st.sb s)))
        (λ i b e. file_block-length st inode i b w z s e) n offset n (omega arith) in
    elim (Bool-cases (leb inode.size offset)) [
      | inl c ↦
          let none_left : n ≡ 0 = ground (arith, c) in
          let b = ap (bytes (block_size st.sb) (file_block st inode) offset) none_left in
          rw c (sym (b ∙ unfold bytes in refl))
      | inr c ↦ rw c g
    ]

-- On a device on which no transfer fails, with blocks of at most 64 KiB, a read of a file answers the
-- bytes of its blocks one by one from the offset on: as many as were asked for and as lie before the
-- end of the file, up to the first in a block that the file does not have. Of an inode that cannot be
-- read it answers none.
pub read_file-content :
    (st : Ext2State) (ino offset len : ℕ)
    → Works st.dev
    → Sized st.dev
    → SizeOk st.sb
    → read_file st ino offset len ≡ content st offset len (inode_of st ino)
unfolding read_file
read_file-content st ino offset len w z s = elim (Option-cases (inode_of st ino)) [
  | inl q ↦ rw (read_file, q) refl
  | inr (inode, q) ↦ rw (read_file, q) (in_file st offset len inode w z s)
]
