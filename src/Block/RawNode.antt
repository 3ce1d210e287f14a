-- ===== src/Block/RawNode.antt =====
-- A block device as a file of bytes: BlockDevINode of fs/src/lib.rs.
use serix.Base.{
  gather, ℕ, zero, suc, ◌+◌, ◌-◌, ◌*◌, ◌/◌, ◌%◌, ◌^◌, min, not, ◌||◌, List, Option, none, some,
  if◌then◌else◌, ◌==◌, ltb, length, replicate, take, drop, splice,
}
use serix.Block.{BlockDev, read_sector, write_sector}

-- The bytes that are put into a buffer of `len` bytes: those of the sectors that the range covers, up to
-- the first that cannot be read.
unfoldable pub read : BlockDev → ℕ → ℕ → List ℕ
read dev offset len = gather 512 (read_sector dev) len offset len

-- The sector buffer of a round: read first where the round covers only a part of the sector.
unfoldable pub fill : BlockDev → ℕ → ℕ → List ℕ → Option (List ℕ)
fill dev pos left sector_buf =
    if not (pos % 512 == 0) || ltb left 512 then read_sector dev (pos / 512) else some sector_buf

-- The loop of `write`: how many bytes were written, and the device.
unfoldable pub write_loop : ℕ → BlockDev → List ℕ → ℕ → List ℕ → ℕ → ℕ × BlockDev
write_loop zero dev sector_buf pos buf done = (done, dev)
write_loop (suc fuel) dev sector_buf pos buf done =
    let copy = min (512 - pos % 512) (length buf) in
    let more : BlockDev → List ℕ → ℕ → List ℕ → ℕ → ℕ × BlockDev = write_loop fuel in
    if length buf == 0 then (done, dev) else elim (fill dev pos (length buf) sector_buf) [
      | none ↦ (done, dev)
      | some base ↦
          let patched = splice (pos % 512) (take copy buf) base in
          let (sent, dev1) = write_sector dev (pos / 512) patched in
          if sent
          then more dev1 patched (pos + copy) (drop copy buf) (done + copy)
          else (done, dev1)
    ]

unfoldable pub write : BlockDev → ℕ → List ℕ → ℕ × BlockDev
write dev offset buf = write_loop (length buf) dev (replicate 512 0) offset buf 0

unfoldable pub size : BlockDev → ℕ
size dev = dev.count * 512 % 2 ^ 64
