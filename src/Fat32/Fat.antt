-- ===== src/Fat32/Fat.antt =====
-- The file allocation table of fs/src/fat32/mod.rs: its entries, allocation and cluster chains.
use serix.Base.{
  ℕ, zero, suc, ◌+◌, ◌-◌, ◌*◌, ◌/◌, ◌%◌, ◌^◌, Bool, ◌||◌, List, [], ◌∷◌, Option, none, some,
  if◌then◌else◌, ◌==◌, ltb, leb, le_at, put_le,
}
use serix.Block.{BlockDev, write_sector}
use serix.Fat32.Bpb.{
  Bpb, sector_size, zeros, read_into, data_start_sector, fat_sector_for, fat_offset_in_sector,
}

abbrev pub fat32_eoc : ℕ
fat32_eoc = 268435448

abbrev pub fat32_free : ℕ
fat32_free = 0

-- `v & FAT32_MASK`, the low 28 bits
abbrev pub masked : ℕ → ℕ
masked v = v % 2 ^ 28

unfoldable pub fat_read_entry : BlockDev → Bpb → ℕ → ℕ
fat_read_entry dev bpb cluster =
    masked
      (le_at (read_into dev (fat_sector_for bpb cluster) zeros) (fat_offset_in_sector cluster) 4)

-- The value put in at an offset; the four high bits of the last byte stay, which are the four high bits
-- of the entry.
unfoldable pub put_entry : ℕ → ℕ → List ℕ → List ℕ
put_entry offset value buf =
    put_le offset 4 (le_at buf offset 4 / 2 ^ 28 * 2 ^ 28 + masked value) buf

-- `n` copies of the table from number `fat_num` on.
unfoldable pub write_copies : BlockDev → Bpb → ℕ → ℕ → ℕ → ℕ → BlockDev
write_copies dev bpb cluster value fat_num zero = dev
write_copies dev bpb cluster value fat_num (suc n) =
    let sector = bpb.reserved_sectors + fat_num * bpb.sectors_per_fat + cluster * 4 / sector_size in
    let buf = put_entry (fat_offset_in_sector cluster) value (read_into dev sector zeros) in
    write_copies ((write_sector dev sector buf).1) bpb cluster value (fat_num + 1) n

unfoldable pub fat_write_entry : BlockDev → Bpb → ℕ → ℕ → BlockDev
fat_write_entry dev bpb cluster value = write_copies dev bpb cluster value 0 bpb.fat_count

unfoldable pub max_cluster : Bpb → ℕ
max_cluster bpb =
    ((bpb.total_sectors + (2 ^ 32 - data_start_sector bpb % 2 ^ 32))
        % 2 ^ 32
        / bpb.sectors_per_cluster
      + 2)
    % 2 ^ 32

-- The search over `n` clusters from one on.
unfoldable pub alloc_from : BlockDev → Bpb → ℕ → ℕ → Option ℕ × BlockDev
alloc_from dev bpb cluster zero = (none, dev)
alloc_from dev bpb cluster (suc n) =
    let rest = alloc_from dev bpb (cluster + 1) n in
    if fat_read_entry dev bpb cluster == fat32_free
    then (some cluster, fat_write_entry dev bpb cluster fat32_eoc)
    else rest

unfoldable pub fat_alloc_cluster : BlockDev → Bpb → Option ℕ × BlockDev
fat_alloc_cluster dev bpb = alloc_from dev bpb 2 (max_cluster bpb - 2)

-- Whether a number is no cluster: below 2, or at the end mark.
abbrev pub not_cluster : ℕ → Bool
not_cluster c = ltb c 2 || leb fat32_eoc c

-- The chain from a cluster on, with as many rounds as fuel. The loop of the source has no bound: where
-- the table leads back to a cluster of the chain it does not end, which is none here for any fuel.
unfoldable pub cluster_chain : BlockDev → Bpb → ℕ → ℕ → Option (List ℕ)
cluster_chain dev bpb zero cur = none
cluster_chain dev bpb (suc fuel) cur =
    let next = fat_read_entry dev bpb cur in
    let rest = cluster_chain dev bpb fuel next in
    if not_cluster cur
    then some []
    else if not_cluster next
    then some (cur ∷ [])
    else elim rest [ none ↦ none | some chain ↦ some (cur ∷ chain) ]
