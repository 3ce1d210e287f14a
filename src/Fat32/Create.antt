-- ===== src/Fat32/Create.antt =====
-- The creation of directory entries in fs/src/fat32/mod.rs. `ticks` is what the timer of the APIC answers.
use serix.Base.{
  ℕ, zero, suc, ◌+◌, ◌-◌, ◌*◌, ◌/◌, ◌%◌, ◌^◌, Bool, ◌&&◌, ◌||◌, List, [], ◌∷◌, ◌++◌, Option, none,
  some, if◌then◌else◌, ◌==◌, leb, length, get_or, set, slice, splice, replicate, put_le,
}
use serix.Block.{BlockDev, write_sector}
use serix.Vfs.Path.{Str}
use serix.Fat32.Bpb.{Bpb, zeros, read_into, cluster_to_sector}
use serix.Fat32.Fat.{cluster_chain, fat_alloc_cluster, fat_write_entry}
use serix.Fat32.File.{last}
use serix.Fat32.Names.{build_sfn, sfn_checksum, encode_utf16, offsets}
use serix.Fat32.Dir.{attr_lfn}

-- The time of day and the first of January 1980.
unfoldable pub fat32_timestamp : ℕ → ℕ × ℕ
fat32_timestamp ticks =
    let secs = ticks / 625 in
    let hours = secs / 3600 % 24 in
    let minutes = secs / 60 % 60 in
    let two_secs = secs % 60 / 2 in (hours * 2 ^ 11 + minutes * 2 ^ 5 + two_secs, 2 ^ 5 + 1)

-- The variables of the search for free slots, and what it returns when it has enough.
pub record Slots : Type 0 where
  pub consecutive : ℕ
  pub first_sector : ℕ
  pub first_offset : ℕ
  pub found : Option (ℕ × ℕ)

unfoldable pub try_slot : ℕ → ℕ → ℕ → ℕ → Slots → Slots
try_slot needed sector off first_byte s =
    let start_sector = if s.consecutive == 0 then sector else s.first_sector in
    let start_offset = if s.consecutive == 0 then off else s.first_offset in
    if first_byte == 0 || first_byte == 229
    then record {
      consecutive = s.consecutive + 1;
      first_sector = start_sector;
      first_offset = start_offset;
      found = if leb needed (s.consecutive + 1) then some (start_sector, start_offset) else none;
    }
    else record s { consecutive = 0 }

-- `n` slots of a sector, from one on.
unfoldable pub slots_of_sector : ℕ → ℕ → List ℕ → ℕ → ℕ → Slots → Slots
slots_of_sector needed sector buf entry_idx zero s = s
slots_of_sector needed sector buf entry_idx (suc n) s =
    let off = entry_idx * 32 in
    let next : Slots = elim s.found [
      | some p ↦ s
      | none ↦ try_slot needed sector off (get_or buf off 0) s
    ] in
    slots_of_sector needed sector buf (entry_idx + 1) n next

-- `n` sectors of a cluster.
unfoldable pub slots_of_cluster : BlockDev → ℕ → ℕ → ℕ → Slots → Slots
slots_of_cluster dev needed sector zero s = s
slots_of_cluster dev needed sector (suc n) s =
    slots_of_cluster dev needed (sector + 1) n
      (slots_of_sector needed sector (read_into dev sector zeros) 0 16 s)

unfoldable pub slots_of_chain : BlockDev → Bpb → ℕ → List ℕ → Slots → Slots
slots_of_chain dev bpb needed [] s = s
slots_of_chain dev bpb needed (cl ∷ chain) s =
    slots_of_chain dev bpb needed chain
      (slots_of_cluster dev needed (cluster_to_sector bpb cl) bpb.sectors_per_cluster s)

-- `n` sectors of zeros from one on.
unfoldable pub zero_cluster : BlockDev → ℕ → ℕ → BlockDev
zero_cluster dev sector zero = dev
zero_cluster dev sector (suc n) = zero_cluster ((write_sector dev sector zeros).1) (sector + 1) n

-- A cluster of zeros at the end of a chain.
unfoldable pub extend_dir : BlockDev → Bpb → List ℕ → Option (ℕ × ℕ) × BlockDev
extend_dir dev bpb chain =
    let (cl, dev1) = fat_alloc_cluster dev bpb in
    elim cl [
      | none ↦ (none, dev1)
      | some new_cl ↦
          let dev2 : BlockDev = elim (last chain) [
            | none ↦ dev1
            | some l ↦ fat_write_entry dev1 bpb l new_cl
          ] in
          let start_sector = cluster_to_sector bpb new_cl in
          (some (start_sector, 0), zero_cluster dev2 start_sector bpb.sectors_per_cluster)
    ]

-- None when the chain does not end within the fuel.
unfoldable pub find_free_dir_slots : ℕ → BlockDev → Bpb → ℕ → ℕ → Option (Option (ℕ × ℕ) × BlockDev)
find_free_dir_slots fuel dev bpb dir_cluster needed =
    let start : Slots = record {
      consecutive = 0;
      first_sector = 0;
      first_offset = 0;
      found = none;
    } in
    elim (cluster_chain dev bpb fuel dir_cluster) [
      | none ↦ none
      | some chain ↦ elim (slots_of_chain dev bpb needed chain start).found [
        | some p ↦ some (some p, dev)
        | none ↦ some (extend_dir dev bpb chain)
      ]
    ]

unfoldable pub write_dir_entry : BlockDev → ℕ → ℕ → List ℕ → BlockDev
write_dir_entry dev sector offset entry =
    (write_sector dev sector (splice offset entry (read_into dev sector zeros))).1

unfoldable pub advance_dir_slot : ℕ → ℕ → ℕ × ℕ
advance_dir_slot sector offset =
    if leb 512 (offset + 32) then (sector + 1, 0) else (sector, offset + 32)

-- The units of a name, up to a multiple of 13 of them: a 0 and then 0xFFFF.
unfoldable pub pad : List ℕ → List ℕ
pad name =
    if length name % 13 == 0 then name else name ++ 0 ∷ replicate (12 - length name % 13) 65535

unfoldable pub put_units : List ℕ → List ℕ → List ℕ → List ℕ
put_units (pos ∷ positions) (u ∷ us) entry = put_units positions us (put_le pos 2 u entry)
put_units _ _ entry = entry

unfoldable pub lfn_entry : ℕ → ℕ → List ℕ → List ℕ
lfn_entry flag checksum chunk =
    put_units offsets chunk (set (set (set (replicate 32 0) 0 flag) 11 attr_lfn) 13 checksum)

-- The first byte of a part of a long name; the last part is written first and has bit 6.
unfoldable pub lfn_flag : ℕ → Bool → ℕ
lfn_flag lfn_idx is_last =
    let seq_num = (lfn_idx % 256 + 1) % 256 in
    if is_last && seq_num / 64 % 2 == 0 then seq_num + 64 else seq_num

-- The parts of a long name from number `n - 1` down, and the slot after them.
unfoldable pub write_lfn : ℕ → ℕ → ℕ → List ℕ → BlockDev → ℕ → ℕ → ℕ × ℕ × BlockDev
write_lfn zero lfn_count checksum padded dev sector offset = (sector, offset, dev)
write_lfn (suc lfn_idx) lfn_count checksum padded dev sector offset =
    let flag = lfn_flag lfn_idx (lfn_idx + 1 == lfn_count) in
    let entry = lfn_entry flag checksum (slice (lfn_idx * 13) 13 padded) in
    let (next_sector, next_offset) = advance_dir_slot sector offset in
    write_lfn lfn_idx lfn_count checksum padded (write_dir_entry dev sector offset entry)
      next_sector next_offset

-- The two halves of the number of the first cluster.
unfoldable pub put_cluster : ℕ → List ℕ → List ℕ
put_cluster cluster entry = put_le 26 2 (cluster % 2 ^ 16) (put_le 20 2 (cluster / 2 ^ 16) entry)

-- The entry with the short name.
unfoldable pub sfn_entry : ℕ → List ℕ → ℕ → ℕ → List ℕ
sfn_entry ticks sfn attr first_cluster =
    let (t, d) = fat32_timestamp ticks in
    put_cluster first_cluster (
      put_le 24 2 d (
        put_le 22 2 t
          (put_le 16 2 d (put_le 14 2 t (set (splice 0 sfn (replicate 32 0)) 11 attr)))))

-- The place of the entry with the short name, and the device.
unfoldable pub create_dir_entry :
    ℕ → ℕ → BlockDev → Bpb → ℕ → Str → ℕ → ℕ → Option (Option (ℕ × ℕ) × BlockDev)
create_dir_entry fuel ticks dev bpb dir_cluster name attr first_cluster =
    let units = encode_utf16 name in
    let lfn_count = (length units + 12) / 13 in
    elim (build_sfn name) [
      | none ↦ some (none, dev)
      | some sfn ↦ elim (find_free_dir_slots fuel dev bpb dir_cluster (lfn_count + 1)) [
        | none ↦ none
        | some (none, dev1) ↦ some (none, dev1)
        | some (some (first_sector, first_off), dev1) ↦
            let (sector, offset, dev2) =
              write_lfn lfn_count lfn_count (sfn_checksum sfn) (pad units) dev1 first_sector
                first_off in
            some (
              some (sector, offset),
              write_dir_entry dev2 sector offset (sfn_entry ticks sfn attr first_cluster),
            )
      ]
    ]
