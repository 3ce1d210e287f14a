-- ===== src/Ext2/Blocks.antt =====
-- The blocks of a file system on its device: what is written to one reads back.
use serix.Base.{
  mul_mono, ℕ, zero, suc, ◌+◌, ◌*◌, ◌/◌, ◌%◌, ◌^◌, ◌≤◌, ◌<◌, ◌≡◌, ◌≢◌, ◌⊎◌, inl, inr, refl, sym, ap,
  ◌∙◌, List, arith, if◌then◌else◌, ◌==◌, length, ℕ_discrete, dec_lt,
}
use serix.Block.{BlockDev, write_sectors, Sized, Works}
use serix.Block.Sectors.{
  write_sectors-Works, write_sectors-outside, read_sectors-same, read_sectors-write_sectors,
  length-read_sectors,
}
use serix.Ext2.Superblock.{
  Superblock, block_size, sectors_per_block, block_to_sector, read_block, write_block,
}

-- The block sizes that ext2 has, up to 64 KiB.
abbrev pub SizeOk : Superblock → Type 0
SizeOk sb = sb.log_block_size ≤ 6

geometry :
    (l : ℕ) → l ≤ 6 → (n : ℕ) × (1024 * 2 ^ (l % 64) % 2 ^ 64 ≡ 512 * n) × (2 ≤ n) × (n ≤ 128)
geometry zero h = (2, refl, omega arith, omega arith)
geometry (suc zero) h = (4, refl, omega arith, omega arith)
geometry (suc (suc zero)) h = (8, refl, omega arith, omega arith)
geometry (suc (suc (suc zero))) h = (16, refl, omega arith, omega arith)
geometry (suc (suc (suc (suc zero)))) h = (32, refl, omega arith, omega arith)
geometry (suc (suc (suc (suc (suc zero))))) h = (64, refl, omega arith, omega arith)
geometry (suc (suc (suc (suc (suc (suc zero)))))) h = (128, refl, omega arith, omega arith)
geometry (suc (suc (suc (suc (suc (suc (suc l))))))) h = absurd (omega arith)

-- The sectors of a block, without their wrap-around.
pub sectors_lem :
    (sb : Superblock)
    → SizeOk sb
    → (block_size sb ≡ 512 * sectors_per_block sb)
      × (2 ≤ sectors_per_block sb)
      × (sectors_per_block sb ≤ 128)
unfolding block_size sectors_per_block
sectors_lem sb h =
    let (n, e, lo, hi) = geometry sb.log_block_size h in
    let q : 1024 * 2 ^ (sb.log_block_size % 64) % 2 ^ 64 / 512 ≡ n = omega (arith, e) in
    (omega (arith, e, q), omega (arith, q, lo), omega (arith, q, hi))

pub block_to_sector_lem :
    (sb : Superblock) (blk : ℕ)
    → SizeOk sb
    → blk < 2 ^ 32
    → block_to_sector sb blk ≡ blk * sectors_per_block sb
unfolding block_to_sector
block_to_sector_lem sb blk h b =
    let m =
      mul_mono blk (2 ^ 32) (sectors_per_block sb) 128 (omega (arith, b)) (sectors_lem sb h).2 in
    omega (arith, m)

-- The sectors of two blocks are apart.
apart : (b c n k : ℕ) → b ≢ c → c * n ≤ k → k < c * n + n → (k < b * n) ⊎ (b * n + n ≤ k)
apart b c n k h lo hi = elim (dec_lt b c) [
  | yes l ↦
      let m = mul_mono (b + 1) c n n (omega (arith, l)) (omega arith) in inr (omega (arith, m, lo))
  | no l ↦
      let m = mul_mono (c + 1) b n n (ground (arith, l, h)) (omega arith) in
      inl (omega (arith, m, hi))
]

module _ (dev : BlockDev) (sb : Superblock) (works : Works dev) (sized : SizeOk sb) where
  pub write_block-Works : (blk : ℕ) (buf : List ℕ) → Works (write_block dev sb blk buf)
  unfolding write_block
  write_block-Works blk buf =
      write_sectors-Works dev (block_to_sector sb blk) (sectors_per_block sb) buf works

  pub length-read_block : (blk : ℕ) → Sized dev → length (read_block dev sb blk) ≡ block_size sb
  unfolding read_block
  length-read_block blk z =
      length-read_sectors dev (block_to_sector sb blk) (sectors_per_block sb) works z
      ∙ sym (sectors_lem sb sized).0

  pub read_block-write_same :
      (blk : ℕ) (buf : List ℕ)
      → length buf ≡ block_size sb
      → read_block (write_block dev sb blk buf) sb blk ≡ buf
  unfolding read_block write_block
  read_block-write_same blk buf l =
      read_sectors-write_sectors dev (block_to_sector sb blk) (sectors_per_block sb) buf works
        (l ∙ (sectors_lem sb sized).0)

  pub read_block-write_other :
      (blk other : ℕ) (buf : List ℕ)
      → blk < 2 ^ 32
      → other < 2 ^ 32
      → blk ≢ other
      → read_block (write_block dev sb blk buf) sb other ≡ read_block dev sb other
  unfolding read_block write_block
  read_block-write_other blk other buf hb ho ne =
      let spb = sectors_per_block sb in
      let eb = block_to_sector_lem sb blk sized hb in
      let eo = block_to_sector_lem sb other sized ho in
      read_sectors-same dev (write_sectors dev (block_to_sector sb blk) spb buf)
        (block_to_sector sb other) spb works
        (write_sectors-Works dev (block_to_sector sb blk) spb buf works)
        (λ k lo hi. write_sectors-outside dev (block_to_sector sb blk) spb k buf (
          let a = apart blk other spb k ne (omega (arith, lo, eo)) (omega (arith, hi, eo)) in
          ground (arith, a, eb)))

  -- On a device on which no transfer fails, with blocks of at most 64 KiB, a block that was written
  -- reads back as it was written, and every other block reads as before.
  pub read_block-write_block :
      (blk other : ℕ) (buf : List ℕ)
      → blk < 2 ^ 32
      → other < 2 ^ 32
      → length buf ≡ block_size sb
      → read_block (write_block dev sb blk buf) sb other
        ≡ (if blk == other then buf else read_block dev sb other)
  read_block-write_block blk other buf hb ho l = elim (ℕ_discrete blk other) [
    | yes e ↦
        let r = read_block-write_same blk buf l in
        let s = ap (read_block (write_block dev sb blk buf) sb) (sym e) in ground (arith, r, s, e)
    | no n ↦ let r = read_block-write_other blk other buf hb ho n in ground (arith, r, n)
  ]
