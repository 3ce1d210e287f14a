-- ===== src/Ext2/Records.antt =====
-- Inodes written to the inode table and read back.
use serix.Base.{
  ℕ, ◌+◌, ◌*◌, ◌^◌, ◌≤◌, ◌<◌, ◌≡◌, ◌≢◌, ◌⊎◌, inl, inr, false, ℕ_discrete, slice-splice_before,
  slice-splice_after, refl, sym, ap, ap₂, ◌∙◌, List, [], ◌∷◌, none, some, arith, if◌then◌else◌, ltb,
  le→ltb, length, slice, splice, length-splice, slice-splice, All, le_at, put_le, le_at-put_le_two,
  le_at-put_le_four, le_at-put_le_before, le_at-put_le_apart, length-put_le, length-take,
  length-drop, drop,
}
use serix.Block.{BlockDev, Sized, Works}
use serix.Ext2.Superblock.{Superblock, block_size, read_block, write_block}
use serix.Ext2.Groups.{BgDesc}
use serix.Ext2.Inode.{
  Inode, parse_map, put_map, parse_inode, put_inode, table_block, table_offset, read, write,
}
use serix.Ext2.Blocks.{SizeOk, length-read_block, read_block-write_same, read_block-write_other}

-- The fields have their widths, and the block map its 15 entries.
abbrev pub InRange : Inode → Type 0
InRange inode =
    (inode.mode < 2 ^ 16)
    × (inode.links_count < 2 ^ 16)
    × (inode.size < 2 ^ 32)
    × (inode.blocks < 2 ^ 32)
    × All (λ b. b < 2 ^ 32) inode.block
    × (length inode.block ≡ 15)

length-put_map : (bs : List ℕ) (off : ℕ) (raw : List ℕ) → length (put_map bs off raw) ≡ length raw
unfolding put_map
length-put_map [] off raw = refl
length-put_map (b ∷ bs) off raw =
    length-put_map bs (off + 4) (put_le off 4 b raw) ∙ length-put_le off 4 b raw

le_at-put_map :
    (bs : List ℕ) (off at n : ℕ) (raw : List ℕ)
    → at + n ≤ off
    → le_at (put_map bs off raw) at n ≡ le_at raw at n
unfolding put_map
le_at-put_map [] off at n raw h = refl
le_at-put_map (b ∷ bs) off at n raw h =
    le_at-put_map bs (off + 4) at n (put_le off 4 b raw) (omega (arith, h))
    ∙ le_at-put_le_before at n off 4 b raw h

parse_map-put_map :
    (bs : List ℕ) (off : ℕ) (raw : List ℕ)
    → off + 4 * length bs ≤ length raw
    → All (λ b. b < 2 ^ 32) bs
    → parse_map (put_map bs off raw) off (length bs) ≡ bs
unfolding put_map parse_map
parse_map-put_map [] off raw l h = refl
parse_map-put_map (b ∷ bs) off raw l h =
    let raw2 = put_le off 4 b raw in
    let z = length-put_le off 4 b raw in
    let first =
      le_at-put_map bs (off + 4) off 4 raw2 (omega arith)
      ∙ le_at-put_le_four off b raw (omega (arith, l)) h.0 in
    ap₂ (◌∷◌) first (parse_map-put_map bs (off + 4) raw2 (omega (arith, l, z)) h.1)

parse_inode-put_inode :
    (inode : Inode) (r : List ℕ)
    → InRange inode
    → length r ≡ 128
    → parse_inode (put_inode inode r) inode.ino ≡ inode
unfolding parse_inode put_inode
parse_inode-put_inode inode r h l =
    let r1 = put_le 0 2 inode.mode r in
    let r2 = put_le 26 2 inode.links_count r1 in
    let r3 = put_le 4 4 inode.size r2 in
    let r4 = put_le 28 4 inode.blocks r3 in
    let l1 = length-put_le 0 2 inode.mode r in
    let l2 = length-put_le 26 2 inode.links_count r1 in
    let l3 = length-put_le 4 4 inode.size r2 in
    let l4 = length-put_le 28 4 inode.blocks r3 in
    let below = λ (at n : ℕ) (q : at + n ≤ 40). le_at-put_map inode.block 40 at n r4 q in
    let mode =
      below 0 2 (omega arith)
      ∙ le_at-put_le_apart 0 2 28 4 inode.blocks r3 refl
      ∙ le_at-put_le_apart 0 2 4 4 inode.size r2 refl
      ∙ le_at-put_le_apart 0 2 26 2 inode.links_count r1 refl
      ∙ le_at-put_le_two 0 inode.mode r (omega (arith, l)) h.0 in
    let links =
      below 26 2 (omega arith)
      ∙ le_at-put_le_apart 26 2 28 4 inode.blocks r3 refl
      ∙ le_at-put_le_apart 26 2 4 4 inode.size r2 refl
      ∙ le_at-put_le_two 26 inode.links_count r1 (omega (arith, l, l1)) h.1 in
    let size =
      below 4 4 (omega arith)
      ∙ le_at-put_le_apart 4 4 28 4 inode.blocks r3 refl
      ∙ le_at-put_le_four 4 inode.size r2 (omega (arith, l, l1, l2)) h.2 in
    let blocks =
      below 28 4 (omega arith)
      ∙ le_at-put_le_four 28 inode.blocks r3 (omega (arith, l, l1, l2, l3)) h.3 in
    let entries =
      ap (parse_map (put_map inode.block 40 r4) 40) (sym h.5)
      ∙ parse_map-put_map inode.block 40 r4 (omega (arith, l, l1, l2, l3, l4, h.5)) h.4 in
    rw (mode, links, size, blocks, entries) refl

length-put_inode : (inode : Inode) (r : List ℕ) → length (put_inode inode r) ≡ length r
unfolding put_inode
length-put_inode inode r =
    let r1 = put_le 0 2 inode.mode r in
    let r2 = put_le 26 2 inode.links_count r1 in
    let r3 = put_le 4 4 inode.size r2 in
    length-put_map inode.block 40 (put_le 28 4 inode.blocks r3)
    ∙ length-put_le 28 4 inode.blocks r3
    ∙ length-put_le 4 4 inode.size r2
    ∙ length-put_le 26 2 inode.links_count r1
    ∙ length-put_le 0 2 inode.mode r

length-slice : (off n : ℕ) (xs : List ℕ) → off + n ≤ length xs → length (slice off n xs) ≡ n
length-slice off n xs h =
    let t = length-take n (drop off xs) in let d = length-drop off xs in omega (arith, t, d, h)

record_in :
    (ino off : ℕ) (blk old r : List ℕ)
    → blk ≡ splice off r old
    → length r ≡ 128
    → off + 128 ≤ length old
    → (if ltb (length blk) (off + 128) then none else some (parse_inode (slice off 128 blk) ino))
      ≡ some (parse_inode r ino)
record_in ino off blk old r e lr fits =
    let l = ap length e ∙ length-splice off r old in
    let again =
      ap (slice off 128) e
      ∙ ap (λ n. slice off n (splice off r old)) (sym lr)
      ∙ slice-splice off r old (omega (arith, lr, fits)) in
    let t : ltb (length blk) (off + 128) ≡ false =
      le→ltb (length blk) (off + 128) (omega (arith, l, fits)) in
    rw (t, again) refl

record_same :
    (ino off : ℕ) (blk old : List ℕ)
    → length blk ≡ length old
    → slice off 128 blk ≡ slice off 128 old
    → (if ltb (length blk) (off + 128) then none else some (parse_inode (slice off 128 blk) ino))
      ≡ (if ltb (length old) (off + 128) then none else some (parse_inode (slice off 128 old) ino))
record_same ino off blk old l e = rw (l, e) refl

-- Two records that do not overlap: they lie in two blocks, or 128 bytes apart in one.
abbrev pub Apart : Superblock → List BgDesc → ℕ → ℕ → Type 0
Apart sb bgdt a b =
    (table_block sb bgdt a ≢ table_block sb bgdt b)
    ⊎ (table_offset sb b + 128 ≤ table_offset sb a)
    ⊎ (table_offset sb a + 128 ≤ table_offset sb b)

slice-splice_apart :
    (off at : ℕ) (r old : List ℕ)
    → length r ≡ 128
    → (at + 128 ≤ off) ⊎ (off + 128 ≤ at)
    → slice at 128 (splice off r old) ≡ slice at 128 old
slice-splice_apart off at r old lr (inl h) = slice-splice_before at 128 off r old h
slice-splice_apart off at r old lr (inr h) =
    slice-splice_after at 128 off r old (omega (arith, lr, h))

module _ (dev : BlockDev) (sb : Superblock) (bgdt : List BgDesc) (works : Works dev)
    (sized : Sized dev) (size_ok : SizeOk sb) where
  table_block-lt : (ino : ℕ) → table_block sb bgdt ino < 2 ^ 32
  unfolding table_block
  table_block-lt ino = omega arith

  offsets :
      (a b : ℕ)
      → Apart sb bgdt a b
      → table_block sb bgdt a ≡ table_block sb bgdt b
      → (table_offset sb b + 128 ≤ table_offset sb a)
        ⊎ (table_offset sb a + 128 ≤ table_offset sb b)
  offsets a b (inl n) q = absurd (n q)
  offsets a b (inr h) q = h

  -- What a written block is read back as.
  written :
      (inode : Inode)
      → table_offset sb inode.ino + 128 ≤ block_size sb
      → (r : List ℕ) × (length r ≡ 128)
        × (length (read_block dev sb (table_block sb bgdt inode.ino)) ≡ block_size sb)
        × (InRange inode → parse_inode r inode.ino ≡ inode)
        × (write inode dev sb bgdt
            ≡ write_block dev sb (table_block sb bgdt inode.ino) (
                splice
                  (table_offset sb inode.ino)
                  r
                  (read_block dev sb (table_block sb bgdt inode.ino))))
  unfolding write
  written inode fits =
      let off = table_offset sb inode.ino in
      let old = read_block dev sb (table_block sb bgdt inode.ino) in
      let l = length-read_block dev sb works size_ok (table_block sb bgdt inode.ino) sized in
      let ls = length-slice off 128 old (omega (arith, l, fits)) in
      (
        put_inode inode (slice off 128 old),
        length-put_inode inode (slice off 128 old) ∙ ls,
        l,
        (λ h. parse_inode-put_inode inode (slice off 128 old) h ls),
        refl,
      )

  own_record :
      (inode : Inode)
      → InRange inode
      → table_offset sb inode.ino + 128 ≤ block_size sb
      → read (write inode dev sb bgdt) sb bgdt inode.ino ≡ some inode
  unfolding read
  own_record inode h fits =
      let blk = table_block sb bgdt inode.ino in
      let off = table_offset sb inode.ino in
      let old = read_block dev sb blk in
      let (r, lr, l, p, e) = written inode fits in
      let new = splice off r old in
      let back =
        ap (λ d. read_block d sb blk) e
        ∙ read_block-write_same dev sb works size_ok blk new (length-splice off r old ∙ l) in
      record_in inode.ino off _ old r back lr (omega (arith, l, fits)) ∙ ap some (p h)

  other_record :
      (inode : Inode) (other : ℕ)
      → table_offset sb inode.ino + 128 ≤ block_size sb
      → Apart sb bgdt inode.ino other
      → read (write inode dev sb bgdt) sb bgdt other ≡ read dev sb bgdt other
  unfolding read
  other_record inode other fits a =
      let blk = table_block sb bgdt inode.ino in
      let oblk = table_block sb bgdt other in
      let at = table_offset sb other in
      let old = read_block dev sb blk in
      let (r, lr, l, p, e) = written inode fits in
      let new = splice (table_offset sb inode.ino) r old in
      let ln = length-splice (table_offset sb inode.ino) r old in
      elim (ℕ_discrete blk oblk) [
        | yes q ↦
            let here = ap (read_block dev sb) q in
            let same =
              ap (λ d. read_block d sb oblk) e
              ∙ ap (read_block (write_block dev sb blk new) sb) (sym q)
              ∙ read_block-write_same dev sb works size_ok blk new (ln ∙ l) in
            record_same other at (read_block (write inode dev sb bgdt) sb oblk)
              (read_block dev sb oblk) (ap length same ∙ ln ∙ ap length here)
              (ap (slice at 128) same
                ∙ slice-splice_apart (table_offset sb inode.ino) at r old lr
                    (offsets inode.ino other a q)
                ∙ ap (slice at 128) here)
        | no n ↦
            let same =
              ap (λ d. read_block d sb oblk) e
              ∙ read_block-write_other dev sb works size_ok blk oblk new (table_block-lt inode.ino)
                  (table_block-lt other) n in
            record_same other at (read_block (write inode dev sb bgdt) sb oblk)
              (read_block dev sb oblk) (ap length same) (ap (slice at 128) same)
      ]

  -- On a device on which no transfer fails, with blocks of at most 64 KiB: an inode whose fields are in
  -- range and whose record lies within a block of the inode table reads back as it was written, and an
  -- inode whose record does not overlap with it reads as before.
  pub read-write_inode :
      (inode : Inode) (other : ℕ)
      → InRange inode
      → table_offset sb inode.ino + 128 ≤ block_size sb
      → Apart sb bgdt inode.ino other
      → (read (write inode dev sb bgdt) sb bgdt inode.ino ≡ some inode)
        × (read (write inode dev sb bgdt) sb bgdt other ≡ read dev sb bgdt other)
  read-write_inode inode other h fits a = (own_record inode h fits, other_record inode other fits a)
