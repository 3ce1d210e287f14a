-- ===== src/Fat32/Bpb.antt =====
-- The BIOS parameter block of fs/src/fat32/mod.rs, and its reads and writes of sectors.
use serix.Base.{
  ℕ, ◌+◌, ◌-◌, ◌*◌, ◌/◌, ◌%◌, ◌^◌, Bool, not, ◌&&◌, ◌||◌, List, [], ◌∷◌, Option, none, some,
  if◌then◌else◌, ◌==◌, get_or, slice, le_at, replicate,
}
use serix.Block.{BlockDev, read_sector}
use serix.Vfs.Path.{Str, str_eq}

abbrev pub sector_size : ℕ
sector_size = 512

pub record Bpb : Type 0 where
  pub bytes_per_sector : ℕ
  pub sectors_per_cluster : ℕ
  pub reserved_sectors : ℕ
  pub fat_count : ℕ
  pub total_sectors : ℕ
  pub sectors_per_fat : ℕ
  pub root_cluster : ℕ

-- "FAT32   "
abbrev signature : Str
signature = b'F' ∷ b'A' ∷ b'T' ∷ b'3' ∷ b'2' ∷ b' ' ∷ b' ' ∷ b' ' ∷ []

abbrev or_else : ℕ → ℕ → ℕ
or_else a b = if a == 0 then b else a

-- The fields, with the 16-bit ones replaced by the 32-bit ones where they are 0.
unfoldable pub fields : List ℕ → Bpb
fields buf = record {
  bytes_per_sector = le_at buf 11 2;
  sectors_per_cluster = le_at buf 13 1;
  reserved_sectors = le_at buf 14 2;
  fat_count = le_at buf 16 1;
  total_sectors = or_else (le_at buf 19 2) (le_at buf 32 4);
  sectors_per_fat = or_else (le_at buf 22 2) (le_at buf 36 4);
  root_cluster = le_at buf 44 4;
}

unfoldable pub is_boot_sector : List ℕ → Bool
is_boot_sector buf = get_or buf 510 0 == 85 && get_or buf 511 0 == 170

unfoldable pub parse : List ℕ → Option Bpb
parse buf =
    let b = fields buf in
    if not (is_boot_sector buf)
    then none
    else if b.bytes_per_sector == 0
        || b.sectors_per_cluster == 0
        || b.fat_count == 0
        || b.sectors_per_fat == 0
    then none
    else if not (str_eq (slice 82 8 buf) signature)
    then none
    else some b

unfoldable pub data_start_sector : Bpb → ℕ
data_start_sector bpb = bpb.reserved_sectors + bpb.fat_count * bpb.sectors_per_fat

-- A cluster below 2 has no sectors: the difference wraps around.
unfoldable pub cluster_to_sector : Bpb → ℕ → ℕ
cluster_to_sector bpb cluster =
    (data_start_sector bpb + (cluster + (2 ^ 64 - 2)) % 2 ^ 64 * bpb.sectors_per_cluster) % 2 ^ 64

unfoldable pub cluster_size_bytes : Bpb → ℕ
cluster_size_bytes bpb = bpb.sectors_per_cluster * sector_size

unfoldable pub fat_sector_for : Bpb → ℕ → ℕ
fat_sector_for bpb cluster = bpb.reserved_sectors + cluster * 4 / sector_size

unfoldable pub fat_offset_in_sector : ℕ → ℕ
fat_offset_in_sector cluster = cluster * 4 % sector_size

-- A sector read into a buffer, which stays as it is when the read fails.
unfoldable pub read_into : BlockDev → ℕ → List ℕ → List ℕ
read_into dev sector buf = elim (read_sector dev sector) [ none ↦ buf | some s ↦ s ]

abbrev pub zeros : List ℕ
zeros = replicate 512 0

unfoldable pub probe : BlockDev → Bool
probe dev =
    let buf = read_into dev 0 zeros in is_boot_sector buf && str_eq (slice 82 8 buf) signature
