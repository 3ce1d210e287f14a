-- ===== src/Fat32/File.antt =====
-- Files of FAT32: `file_read` and `file_write` of fs/src/fat32/mod.rs, on the chain of a file.
use serix.Base.{
  ℕ, zero, suc, ◌+◌, ◌-◌, ◌/◌, ◌%◌, ◌^◌, min, max, Bool, ◌||◌, List, [], ◌∷◌, ◌++◌, Option, none,
  some, if◌then◌else◌, ◌==◌, ltb, leb, length, slice, splice, put_le,
}
use serix.Block.{BlockDev, write_sector}
use serix.Fat32.Bpb.{Bpb, sector_size, zeros, read_into, cluster_to_sector, cluster_size_bytes}
use serix.Fat32.Fat.{cluster_chain, fat_alloc_cluster, fat_write_entry}

-- The variables of the loop of a read.
pub record Reading : Type 0 where
  pub done : ℕ
  pub file_pos : ℕ
  pub sector_buf : List ℕ
  pub buf : List ℕ

-- The part of a sector at `pos` that a range covers.
abbrev pub from : ℕ → ℕ → ℕ
from pos offset = if ltb pos offset then offset - pos else 0

abbrev pub upto : ℕ → ℕ → ℕ
upto pos stop = min sector_size (stop - pos)

abbrev pub misses : ℕ → ℕ → ℕ → Bool
misses pos offset stop = leb (pos + sector_size) offset || leb stop pos

-- One sector; `stop` is the end of the range.
unfoldable pub read_piece : BlockDev → ℕ → ℕ → ℕ → Reading → Reading
read_piece dev sector offset stop r =
    let pos = r.file_pos in
    let sector_buf = read_into dev sector r.sector_buf in
    let copy_len = upto pos stop - from pos offset in
    if misses pos offset stop then record r { file_pos = pos + sector_size } else record {
      done = r.done + copy_len;
      file_pos = pos + sector_size;
      sector_buf = sector_buf;
      buf =
          splice (pos + from pos offset - offset) (slice (from pos offset) copy_len sector_buf)
            r.buf;
    }

-- `n` sectors of a cluster.
unfoldable pub read_cluster : BlockDev → ℕ → ℕ → ℕ → ℕ → Reading → Reading
read_cluster dev sector zero offset stop r = r
read_cluster dev sector (suc n) offset stop r =
    read_cluster dev (sector + 1) n offset stop (read_piece dev sector offset stop r)

unfoldable pub read_clusters : BlockDev → Bpb → List ℕ → ℕ → ℕ → Reading → Reading
read_clusters dev bpb [] offset stop r = r
read_clusters dev bpb (cl ∷ chain) offset stop r =
    let cl_end = r.file_pos + cluster_size_bytes bpb in
    let skip = leb cl_end offset in
    let whole = read_cluster dev (cluster_to_sector bpb cl) bpb.sectors_per_cluster offset stop r in
    let rest =
      read_clusters dev bpb chain offset stop
        (if skip then record r { file_pos = cl_end } else whole) in
    if skip then rest else if leb stop r.file_pos then r else rest

-- How many bytes were read, and the buffer; none when the chain does not end within the fuel.
unfoldable pub file_read : ℕ → BlockDev → Bpb → ℕ → ℕ → ℕ → List ℕ → Option (ℕ × List ℕ)
file_read fuel dev bpb cluster file_size offset buf =
    let readable = min (length buf) (file_size - offset) in
    let start : Reading = record { done = 0; file_pos = 0; sector_buf = zeros; buf = buf } in
    if leb file_size offset || length buf == 0
    then some (0, buf)
    else elim (cluster_chain dev bpb fuel cluster) [
      | none ↦ none
      | some chain ↦
          let r = read_clusters dev bpb chain offset (offset + readable) start in
          some (r.done, r.buf)
    ]

-- The last cluster of a chain.
unfoldable pub last : List ℕ → Option ℕ
last [] = none
last (c ∷ []) = some c
last (c ∷ d ∷ cs) = last (d ∷ cs)

-- Clusters are added until the chain has as many as needed, or the disk is full.
unfoldable pub grow : ℕ → BlockDev → Bpb → List ℕ → ℕ → List ℕ × BlockDev
grow zero dev bpb chain needed = (chain, dev)
grow (suc fuel) dev bpb chain needed =
    let more : BlockDev → List ℕ → List ℕ × BlockDev = λ d c. grow fuel d bpb c needed in
    let (cl, dev1) = fat_alloc_cluster dev bpb in
    if ltb (length chain) needed
    then elim cl [
      | none ↦ (chain, dev1)
      | some new_cl ↦
          more (elim (last chain) [ none ↦ dev1 | some l ↦ fat_write_entry dev1 bpb l new_cl ])
            (chain ++ new_cl ∷ [])
    ]
    else (chain, dev)

-- The variables of the loop of a write.
pub record Writing : Type 0 where
  pub done : ℕ
  pub file_pos : ℕ
  pub sector_buf : List ℕ
  pub dev : BlockDev

unfoldable pub write_piece : ℕ → ℕ → List ℕ → Writing → Writing
write_piece sector offset bytes w =
    let pos = w.file_pos in
    let stop = offset + length bytes in
    let copy_len = upto pos stop - from pos offset in
    let piece = slice (pos + from pos offset - offset) copy_len bytes in
    let sector_buf = splice (from pos offset) piece (read_into w.dev sector w.sector_buf) in
    if misses pos offset stop then record w { file_pos = pos + sector_size } else record {
      done = w.done + copy_len;
      file_pos = pos + sector_size;
      sector_buf = sector_buf;
      dev = (write_sector w.dev sector sector_buf).1;
    }

unfoldable pub write_cluster : ℕ → ℕ → ℕ → List ℕ → Writing → Writing
write_cluster sector zero offset bytes w = w
write_cluster sector (suc n) offset bytes w =
    write_cluster (sector + 1) n offset bytes (write_piece sector offset bytes w)

unfoldable pub write_clusters : Bpb → List ℕ → ℕ → List ℕ → Writing → Writing
write_clusters bpb [] offset bytes w = w
write_clusters bpb (cl ∷ chain) offset bytes w =
    write_clusters bpb chain offset bytes
      (write_cluster (cluster_to_sector bpb cl) bpb.sectors_per_cluster offset bytes w)

-- The size in the directory entry.
unfoldable pub write_size : BlockDev → ℕ → ℕ → ℕ → BlockDev
write_size dev entry_sector entry_offset size =
    (write_sector dev entry_sector
      (put_le (entry_offset + 28) 4 size (read_into dev entry_sector zeros))).1

unfoldable pub file_write : ℕ → BlockDev → Bpb → ℕ → ℕ → ℕ → List ℕ → ℕ → ℕ → Option (ℕ × BlockDev)
file_write fuel dev bpb first_cluster old_size offset bytes entry_sector entry_offset =
    let cluster_size = cluster_size_bytes bpb in
    let needed_size = offset + length bytes in
    let needed = (needed_size + cluster_size - 1) / cluster_size in
    let new_size = max old_size needed_size % 2 ^ 32 in
    if length bytes == 0 then some (0, dev) else elim (cluster_chain dev bpb fuel first_cluster) [
      | none ↦ none
      | some found ↦
          let (chain, dev1) = grow needed dev bpb found needed in
          let start : Writing = record { done = 0; file_pos = 0; sector_buf = zeros; dev = dev1 } in
          let w = write_clusters bpb chain offset bytes start in
          some (
            w.done,
            if new_size == old_size
                then w.dev
                else write_size w.dev entry_sector entry_offset new_size,
          )
    ]

-- An open file of the VFS: FatFileINode.
pub record FatFile : Type 0 where
  pub first_cluster : ℕ
  pub size : ℕ
  pub entry_sector : ℕ
  pub entry_offset : ℕ

unfoldable pub read : ℕ → BlockDev → Bpb → FatFile → ℕ → List ℕ → Option (ℕ × List ℕ)
read fuel dev bpb f offset buf = file_read fuel dev bpb f.first_cluster f.size offset buf

unfoldable pub write : ℕ → BlockDev → Bpb → FatFile → ℕ → List ℕ → Option (ℕ × FatFile × BlockDev)
write fuel dev bpb f offset buf =
    elim (file_write fuel dev bpb f.first_cluster f.size offset buf f.entry_sector f.entry_offset) [
      | none ↦ none
      | some (written, dev1) ↦
          some (written, record f { size = max f.size (offset + written) % 2 ^ 32 }, dev1)
    ]
