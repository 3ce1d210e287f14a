-- ===== src/Fat32/Entries.antt =====
-- Entries of the file allocation table after a write: fs/src/fat32/mod.rs.
use serix.Base.{
  ℕ, zero, suc, ◌+◌, ◌*◌, ◌/◌, ◌%◌, ◌^◌, ◌≤◌, ◌<◌, ◌≡◌, refl, sym, ap, ◌∙◌, true, false, List,
  arith, if◌then◌else◌, ◌==◌, length, le_at, put_le, le_at-put_le_wrap, le_at-put_le_before,
  le_at-put_le_after, ℕ_discrete, dec_lt, mul_mono,
}
use serix.Block.{BlockDev, read_sector, write_sector, Sized, Works}
use serix.Block.Sectors.{write_sector-Works, write_sector-here, write_sector-beside}
use serix.Fat32.Bpb.{Bpb, zeros, read_into, fat_sector_for, fat_offset_in_sector}
use serix.Fat32.Fat.{masked, fat_read_entry, put_entry, write_copies, fat_write_entry}

pub read_into-Works :
    (dev : BlockDev) (s : ℕ) (buf : List ℕ) → Works dev → read_into dev s buf ≡ dev.sectors s
unfolding read_into read_sector
read_into-Works dev s buf w = let r = w.0 s in rw (read_into, r) refl

-- The entry of a cluster lies in the first table.
abbrev pub InTable : Bpb → ℕ → Type 0
InTable bpb cluster = cluster * 4 / 512 < bpb.sectors_per_fat

pub write_copies-Works :
    (n : ℕ) (dev : BlockDev) (bpb : Bpb) (cluster value fat_num : ℕ)
    → Works dev
    → Works (write_copies dev bpb cluster value fat_num n)
unfolding write_copies
write_copies-Works zero dev bpb cluster value fat_num w = w
write_copies-Works (suc n) dev bpb cluster value fat_num w =
    let sector = bpb.reserved_sectors + fat_num * bpb.sectors_per_fat + cluster * 4 / 512 in
    let buf = put_entry (fat_offset_in_sector cluster) value (read_into dev sector zeros) in
    write_copies-Works n (write_sector dev sector buf).1 bpb cluster value (fat_num + 1)
      (write_sector-Works dev sector buf w)

-- The copies after the first table leave the sectors of the first table.
write_copies-first :
    (n : ℕ) (dev : BlockDev) (bpb : Bpb) (cluster value fat_num s : ℕ)
    → 1 ≤ fat_num
    → s < bpb.reserved_sectors + bpb.sectors_per_fat
    → (write_copies dev bpb cluster value fat_num n).sectors s ≡ dev.sectors s
unfolding write_copies
write_copies-first zero dev bpb cluster value fat_num s h l = refl
write_copies-first (suc n) dev bpb cluster value fat_num s h l =
    let sector = bpb.reserved_sectors + fat_num * bpb.sectors_per_fat + cluster * 4 / 512 in
    let buf = put_entry (fat_offset_in_sector cluster) value (read_into dev sector zeros) in
    let m = mul_mono 1 fat_num bpb.sectors_per_fat bpb.sectors_per_fat h (omega arith) in
    write_copies-first n (write_sector dev sector buf).1 bpb cluster value (fat_num + 1) s
      (omega (arith, h)) l
    ∙ write_sector-beside dev sector s buf (ground (arith, m, l))

-- The sector that holds an entry, after the write of another one to `n` tables.
first_table :
    (n : ℕ) (dev : BlockDev) (bpb : Bpb) (cluster value other : ℕ)
    → Works dev
    → 1 ≤ n
    → InTable bpb other
    → (write_copies dev bpb cluster value 0 n).sectors (fat_sector_for bpb other) ≡ (
        if fat_sector_for bpb cluster == fat_sector_for bpb other
        then put_entry (fat_offset_in_sector cluster) value (dev.sectors (fat_sector_for bpb other))
        else dev.sectors (fat_sector_for bpb other))
unfolding write_copies fat_sector_for
first_table zero dev bpb cluster value other w c h = absurd (omega (arith, c))
first_table (suc n) dev bpb cluster value other w c h =
    let sector = bpb.reserved_sectors + 0 * bpb.sectors_per_fat + cluster * 4 / 512 in
    let buf = put_entry (fat_offset_in_sector cluster) value (read_into dev sector zeros) in
    let at = bpb.reserved_sectors + other * 4 / 512 in
    let dev1 = (write_sector dev sector buf).1 in
    let e : sector ≡ bpb.reserved_sectors + cluster * 4 / 512 = omega arith in
    let later =
      write_copies-first n dev1 bpb cluster value (0 + 1) at (omega arith) (omega (arith, h)) in
    elim (ℕ_discrete (bpb.reserved_sectors + cluster * 4 / 512) at) [
      | yes q ↦
          let t : (bpb.reserved_sectors + cluster * 4 / 512 == at) ≡ true = ground (arith, q) in
          let here = ap dev1.sectors (sym (e ∙ q)) ∙ write_sector-here dev sector buf w in
          let filled = read_into-Works dev sector zeros w ∙ ap dev.sectors (e ∙ q) in
          later ∙ here ∙ rw t (ap (put_entry (fat_offset_in_sector cluster) value) filled)
      | no ne ↦
          let t : (bpb.reserved_sectors + cluster * 4 / 512 == at) ≡ false = ground (arith, ne) in
          later ∙ write_sector-beside dev sector at buf (ground (arith, e, ne)) ∙ rw t refl
    ]

-- An entry of a sector, after the write of an entry in the same sector.
le_at-put_entry :
    (cluster other value : ℕ) (buf : List ℕ)
    → length buf ≡ 512
    → cluster * 4 / 512 ≡ other * 4 / 512
    → masked
        (le_at (put_entry (fat_offset_in_sector cluster) value buf) (fat_offset_in_sector other) 4)
      ≡ (if cluster == other
          then masked value
          else masked (le_at buf (fat_offset_in_sector other) 4))
unfolding put_entry fat_offset_in_sector
le_at-put_entry cluster other value buf l e =
    let off = cluster * 4 % 512 in
    let v = le_at buf off 4 / 2 ^ 28 * 2 ^ 28 + masked value in
    elim (ℕ_discrete cluster other) [
      | yes q ↦
          let c : (cluster == other) ≡ true = ground (arith, q) in
          let s = le_at-put_le_wrap off v buf (omega (arith, l)) in
          let here = ap (λ k. le_at (put_le off 4 v buf) (k * 4 % 512) 4) (sym q) ∙ s in
          let low : masked (v % 2 ^ 32) ≡ masked value = omega arith in rw (c, here) low
      | no ne ↦
          let c : (cluster == other) ≡ false = ground (arith, ne) in
          elim (dec_lt cluster other) [
            | yes lt ↦
                let a = le_at-put_le_after (other * 4 % 512) 4 off 4 v buf (omega (arith, lt, e)) in
                rw (c, a) refl
            | no ge ↦
                let a =
                  le_at-put_le_before (other * 4 % 512) 4 off 4 v buf (ground (arith, ge, ne, e)) in
                rw (c, a) refl
          ]
    ]

-- On a device on which no transfer fails and whose sectors have 512 bytes, with at least one table: after
-- the write of an entry, the entry of a cluster in the first table is the low 28 bits of the value when
-- the cluster is the one written, and as before when it is another.
pub fat_read_entry-fat_write_entry :
    (dev : BlockDev) (bpb : Bpb) (cluster value other : ℕ)
    → Works dev
    → Sized dev
    → 1 ≤ bpb.fat_count
    → InTable bpb other
    → fat_read_entry (fat_write_entry dev bpb cluster value) bpb other
      ≡ (if cluster == other then masked value else fat_read_entry dev bpb other)
unfolding fat_read_entry fat_write_entry
fat_read_entry-fat_write_entry dev bpb cluster value other w z c h =
    let n = bpb.fat_count in
    let dev1 = write_copies dev bpb cluster value 0 n in
    let at = fat_sector_for bpb other in
    let off = fat_offset_in_sector other in
    let w1 = write_copies-Works n dev bpb cluster value 0 w in
    let first = first_table n dev bpb cluster value other w c h in
    let old = read_into-Works dev at zeros w in
    elim (ℕ_discrete (cluster * 4 / 512) (other * 4 / 512)) [
      | yes q ↦
          let t : (fat_sector_for bpb cluster == at) ≡ true =
            unfold fat_sector_for in ground (arith, q) in
          let buf : read_into dev1 at zeros
              ≡ put_entry (fat_offset_in_sector cluster) value (dev.sectors at) =
            read_into-Works dev1 at zeros w1 ∙ first ∙ rw t refl in
          rw (buf, old) (le_at-put_entry cluster other value (dev.sectors at) (z at) q)
      | no ne ↦
          let t : (fat_sector_for bpb cluster == at) ≡ false =
            unfold fat_sector_for in ground (arith, ne) in
          let buf : read_into dev1 at zeros ≡ dev.sectors at =
            read_into-Works dev1 at zeros w1 ∙ first ∙ rw t refl in
          let d : (cluster == other) ≡ false = ground (arith, ne) in rw (buf, old, d) refl
    ]
