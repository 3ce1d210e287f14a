-- ===== src/Block.antt =====
-- Block devices: the trait BlockDev of fs/src/lib.rs. The device itself is the virtio driver's; what is
-- stated here is what the file systems see of it, a store of sectors of 512 bytes, some of which may fail.
pub mod Sectors
pub mod Registry
pub mod RawNode
pub mod Bytes
pub mod Patch
mod Tests
use serix.Base.{
  ℕ, zero, suc, ◌+◌, Bool, true, false, List, [], ◌∷◌, ◌++◌, Option, none, some, if◌then◌else◌,
  ◌==◌, take, drop, replicate, length, ◌≡◌,
}

pub record BlockDev : Type 0 where
  pub sectors : ℕ → List ℕ
  pub readable : ℕ → Bool
  pub writable : ℕ → Bool
  pub count : ℕ

-- The sector that is read, if the device answers `true`.
unfoldable pub read_sector : BlockDev → ℕ → Option (List ℕ)
read_sector dev sector = if dev.readable sector then some (dev.sectors sector) else none

unfoldable pub write_sector : BlockDev → ℕ → List ℕ → Bool × BlockDev
write_sector dev sector buf =
    if dev.writable sector
    then (true, record dev { sectors = λ s. if s == sector then buf else dev.sectors s })
    else (false, dev)

-- A sector read into a buffer of zeros, whether or not the read succeeds.
unfoldable pub sector_or_zeros : BlockDev → ℕ → List ℕ
sector_or_zeros dev sector = elim (read_sector dev sector) [ none ↦ replicate 512 0 | some s ↦ s ]

-- `n` sectors from one on, appended.
unfoldable pub read_sectors : BlockDev → ℕ → ℕ → List ℕ
read_sectors dev sector zero = []
read_sectors dev sector (suc n) = sector_or_zeros dev sector ++ read_sectors dev (sector + 1) n

-- A buffer of `n` sectors written one after another; the results are not looked at.
unfoldable pub write_sectors : BlockDev → ℕ → ℕ → List ℕ → BlockDev
write_sectors dev sector zero buf = dev
write_sectors dev sector (suc n) buf =
    write_sectors ((write_sector dev sector (take 512 buf)).1) (sector + 1) n (drop 512 buf)

-- A device whose sectors have their size.
abbrev pub Sized : BlockDev → Type 0
Sized dev = (s : ℕ) → length (dev.sectors s) ≡ 512

-- A device on which no transfer fails.
abbrev pub Works : BlockDev → Type 0
Works dev = ((s : ℕ) → dev.readable s ≡ true) × ((s : ℕ) → dev.writable s ≡ true)
