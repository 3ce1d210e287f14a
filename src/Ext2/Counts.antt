-- ===== src/Ext2/Counts.antt =====
-- The free counts of the superblock on the disk.
use serix.Base.{
  ℕ, ◌+◌, ◌^◌, ◌≤◌, ◌<◌, ◌≡◌, refl, sym, ap, ap₂, subst, ◌∙◌, Bool, true, false, List, ◌++◌, none,
  some, arith, if◌then◌else◌, ◌==◌, length, take, drop, length-append, take-append-drop, le_at,
  put_le, le_at-put_le_four, le_at-put_le_before, le_at-put_le_apart, length-put_le, leb, ◌||◌,
}
use mathlib.Core.Option
use serix.Block.{BlockDev, read_sector, write_sector, Sized, Works}
use serix.Block.Sectors.{write_sector-Works, write_sector-here, write_sector-beside}
use serix.Ext2.Superblock.{
  Superblock, parse, raw_superblock, read, with_counts, write_free_counts, ext2_magic,
}

-- The superblock that is on the disk, with the free counts of another.
abbrev pub recount : Superblock → Superblock → Superblock
recount sb old = record old { free_blocks = sb.free_blocks; free_inodes = sb.free_inodes }

raw_superblock-Works :
    (dev : BlockDev) → Works dev → raw_superblock dev ≡ some (dev.sectors 2 ++ dev.sectors 3)
unfolding raw_superblock read_sector
raw_superblock-Works dev w = let a = w.0 2 in let b = w.0 3 in ground (arith, a, b)

-- A number that lies outside the two counts.
beside :
    (sb : Superblock) (raw : List ℕ) (at n : ℕ)
    → (leb (at + n) 12 || leb 20 at) ≡ true
    → le_at (with_counts sb raw) at n ≡ le_at raw at n
unfolding with_counts
beside sb raw at n h =
    le_at-put_le_apart at n 16 4 sb.free_inodes (put_le 12 4 sb.free_blocks raw) (ground (arith, h))
    ∙ le_at-put_le_apart at n 12 4 sb.free_blocks raw (ground (arith, h))

-- The fields of the superblock with new counts.
parse-with_counts :
    (sb : Superblock) (raw : List ℕ)
    → 1024 ≤ length raw
    → sb.free_blocks < 2 ^ 32
    → sb.free_inodes < 2 ^ 32
    → parse (with_counts sb raw) ≡ recount sb (parse raw)
unfolding parse
parse-with_counts sb raw l hb hi =
    let blocks : le_at (with_counts sb raw) 12 4 ≡ sb.free_blocks =
      unfold with_counts in
      le_at-put_le_before 12 4 16 4 sb.free_inodes (put_le 12 4 sb.free_blocks raw) (omega arith)
      ∙ le_at-put_le_four 12 sb.free_blocks raw (omega (arith, l)) hb in
    let z = length-put_le 12 4 sb.free_blocks raw in
    let inodes : le_at (with_counts sb raw) 16 4 ≡ sb.free_inodes =
      unfold with_counts in
      le_at-put_le_four 16 sb.free_inodes (put_le 12 4 sb.free_blocks raw) (omega (arith, l, z))
        hi in
    rw
      (
        blocks,
        inodes,
        beside sb raw 0 4 refl,
        beside sb raw 4 4 refl,
        beside sb raw 20 4 refl,
        beside sb raw 24 4 refl,
        beside sb raw 32 4 refl,
        beside sb raw 40 4 refl,
        beside sb raw 56 2 refl,
        beside sb raw 88 2 refl,
        beside sb raw 84 4 refl,
      )
      refl

-- The device after the counts are written.
write_free_counts-eq :
    (sb : Superblock) (dev : BlockDev)
    → Works dev
    → write_free_counts sb dev
      ≡ (write_sector
          (write_sector dev 2 (take 512 (with_counts sb (dev.sectors 2 ++ dev.sectors 3)))).1
          3
          (drop 512 (with_counts sb (dev.sectors 2 ++ dev.sectors 3)))).1
unfolding write_free_counts
write_free_counts-eq sb dev w = rw (write_free_counts, raw_superblock-Works dev w) refl

pub write_free_counts-Works :
    (sb : Superblock) (dev : BlockDev) → Works dev → Works (write_free_counts sb dev)
write_free_counts-Works sb dev w =
    let new = with_counts sb (dev.sectors 2 ++ dev.sectors 3) in
    subst Works (sym (write_free_counts-eq sb dev w))
      (write_sector-Works _ 3 (drop 512 new) (write_sector-Works dev 2 (take 512 new) w))

pub write_free_counts-beside :
    (sb : Superblock) (dev : BlockDev) (k : ℕ)
    → Works dev
    → 4 ≤ k
    → (write_free_counts sb dev).sectors k ≡ dev.sectors k
write_free_counts-beside sb dev k w h =
    let new = with_counts sb (dev.sectors 2 ++ dev.sectors 3) in
    let dev2 = (write_sector dev 2 (take 512 new)).1 in
    ap (λ d. d.sectors k) (write_free_counts-eq sb dev w)
    ∙ write_sector-beside dev2 3 k (drop 512 new) (ground (arith, h))
    ∙ write_sector-beside dev 2 k (take 512 new) (ground (arith, h))

pub raw_superblock-write_free_counts :
    (sb : Superblock) (dev : BlockDev)
    → Works dev
    → Sized dev
    → raw_superblock (write_free_counts sb dev)
      ≡ some (with_counts sb (dev.sectors 2 ++ dev.sectors 3))
unfolding write_free_counts
raw_superblock-write_free_counts sb dev w z =
    let raw = dev.sectors 2 ++ dev.sectors 3 in
    let new = with_counts sb raw in
    let dev2 = (write_sector dev 2 (take 512 new)).1 in
    let dev3 = (write_sector dev2 3 (drop 512 new)).1 in
    let w2 = write_sector-Works dev 2 (take 512 new) w in
    let w3 = write_sector-Works dev2 3 (drop 512 new) w2 in
    let a =
      write_sector-beside dev2 3 2 (drop 512 new) refl ∙ write_sector-here dev 2 (take 512 new) w in
    let b = write_sector-here dev2 3 (drop 512 new) w2 in
    rw (write_free_counts, raw_superblock-Works dev w)
      (raw_superblock-Works dev3 w3 ∙ ap some (ap₂ (◌++◌) a b ∙ take-append-drop 512 new))

checked :
    (sb : Superblock) (raw : List ℕ) (b : Bool)
    → (if b then some (recount sb (parse raw)) else none)
      ≡ Option.map (recount sb) (if b then some (parse raw) else none)
checked sb raw true = refl
checked sb raw false = refl

-- On a device on which no transfer fails, writing the free counts of a superblock replaces the two
-- counts of the superblock that a mount reads, and no other field of it. The counts have 32 bits.
pub read-write_free_counts :
    (sb : Superblock) (dev : BlockDev)
    → Works dev
    → Sized dev
    → sb.free_blocks < 2 ^ 32
    → sb.free_inodes < 2 ^ 32
    → read (write_free_counts sb dev) ≡ Option.map (recount sb) (read dev)
unfolding read
read-write_free_counts sb dev w z hb hi =
    let raw = dev.sectors 2 ++ dev.sectors 3 in
    let l = length-append (dev.sectors 2) (dev.sectors 3) in
    let z2 = z 2 in
    let z3 = z 3 in
    let p = parse-with_counts sb raw (omega (arith, l, z2, z3)) hb hi in
    let m = beside sb raw 56 2 refl in
    rw (read, raw_superblock-write_free_counts sb dev w z, raw_superblock-Works dev w, m, p)
      (checked sb raw (le_at raw 56 2 == ext2_magic))
