-- ===== src/Fat32/Tests.antt =====
-- A small FAT32 table at concrete entries.
use serix.Base.{
  false, inr, ℕ, ◌≡◌, refl, true, List, [], ◌∷◌, Option, none, some, arith, replicate,
  length-replicate, slice, if◌then◌else◌, ◌==◌, le_at, put_le, to_le, from_le,
}
use serix.Block.{BlockDev, Works, Sized, read_sector, write_sector}
use serix.Vfs.Path.{is_empty, str_eq}
use serix.Ext2.Utf8.{is_utf8, utf8_from, followers}
use serix.Fat32.File.{last}
use serix.Bitmap.{bit}
use serix.Fat32.Bpb.{
  Bpb, zeros, read_into, data_start_sector, cluster_to_sector, fat_sector_for, fat_offset_in_sector,
}
use serix.Fat32.Fat.{
  masked, fat32_eoc, fat_read_entry, fat_write_entry, fat_alloc_cluster, put_entry, write_copies,
  max_cluster, alloc_from, cluster_chain,
}
use serix.Fat32.Entries.{fat_read_entry-fat_write_entry}
use serix.Fat32.Names.{
  build_sfn, base_and_ext, split_dot, any_invalid, invalid, to_ascii_uppercase, parse_sfn,
  trim_spaces, encode_utf16, utf16_from, units, push_char, till_zero, decode_units, read_lfn_chars,
  to_ascii_lowercase, eq_ignore_ascii_case, checksum_from, sfn_checksum,
}
use serix.Fat32.Dir.{
  Scan, entry_of, is_dir, add_lfn, add_sfn, scan_entry, scan_sector, scan_cluster, scan_chain,
  read_dir_entries, find_name, find_entry_in_dir,
}
use serix.Fat32.Create.{
  sfn_entry, write_dir_entry, fat32_timestamp, try_slot, slots_of_sector, slots_of_cluster,
  slots_of_chain, find_free_dir_slots, advance_dir_slot, pad, put_units, lfn_entry, lfn_flag,
  write_lfn, put_cluster, create_dir_entry,
}
use serix.Fat32.Slot.{found, shown, scan_entry-write_dir_entry}
use serix.Fat32.Node.{
  Fat32State, Node, file_node, create_file, lookup, bpb_of, node_of, refuse_existing, new_cluster,
  new_entry,
}
use serix.Fat32.Chain.{Follows, cluster_chain-Follows}
use serix.Fat32.Alloc.{Allocates, fat_alloc_cluster-Allocates}

abbrev zero_disk : BlockDev
zero_disk = record {
  sectors = λ _. replicate 512 0;
  readable = λ _. true;
  writable = λ _. true;
  count = 64;
}

zero_disk-Works : Works zero_disk
zero_disk-Works = ((λ s. refl), (λ s. refl))

zero_disk-Sized : Sized zero_disk
zero_disk-Sized s = length-replicate {A = ℕ} 512 0

abbrev two_tables : Bpb
two_tables = record {
  bytes_per_sector = 512;
  sectors_per_cluster = 1;
  reserved_sectors = 1;
  fat_count = 2;
  total_sectors = 64;
  sectors_per_fat = 2;
  root_cluster = 2;
}

fat_read_entry-fat_write_entry_example :
    fat_read_entry (fat_write_entry zero_disk two_tables 3 7) two_tables 3
    ≡ (if 3 == 3 then masked 7 else fat_read_entry zero_disk two_tables 3)
fat_read_entry-fat_write_entry_example =
    fat_read_entry-fat_write_entry zero_disk two_tables 3 7 3 zero_disk-Works zero_disk-Sized
      (omega arith) (omega arith)

fat_alloc_cluster-Allocates_example :
    Allocates zero_disk two_tables 5 (fat_alloc_cluster zero_disk two_tables)
fat_alloc_cluster-Allocates_example =
    fat_alloc_cluster-Allocates zero_disk two_tables 5 zero_disk-Works zero_disk-Sized (omega arith)
      (omega arith)

abbrev name_bytes : List ℕ
name_bytes = 65 ∷ 32 ∷ 32 ∷ 32 ∷ 32 ∷ 32 ∷ 32 ∷ 32 ∷ 84 ∷ 88 ∷ 84 ∷ []

-- A scan that has read the long name "a.Txt".
abbrev long_read : Scan
long_read = record {
  entries = [];
  lfn_buf = 97 ∷ 46 ∷ 84 ∷ 120 ∷ 116 ∷ [];
  lfn_start = some (9, 32);
  ended = false;
}

scan_entry-write_dir_entry_example :
    scan_entry 9 64
      (slice 64 32
        (read_into (write_dir_entry zero_disk 9 64 (sfn_entry 0 name_bytes 32 5)) 9 zeros))
      long_read
    ≡ found long_read (shown 9 64 name_bytes 32 5 long_read)
unfolding decode_units push_char is_empty str_eq
scan_entry-write_dir_entry_example =
    scan_entry-write_dir_entry zero_disk 0 9 64 32 5 name_bytes long_read zero_disk-Works
      zero_disk-Sized refl (omega arith) (omega arith) (λ e. omega (arith, e))
      (λ e. omega (arith, e)) (inr refl) refl

-- "a.Txt" as a short name, and its text.
build_sfn_test : build_sfn (97 ∷ 46 ∷ 84 ∷ 120 ∷ 116 ∷ []) ≡ some name_bytes
unfolding build_sfn base_and_ext split_dot is_empty any_invalid invalid to_ascii_uppercase
build_sfn_test = refl

parse_sfn_test : parse_sfn name_bytes ≡ 65 ∷ 46 ∷ 84 ∷ 88 ∷ 84 ∷ []
unfolding parse_sfn trim_spaces is_empty is_utf8 utf8_from followers
parse_sfn_test = refl

encode_utf16_test : encode_utf16 (240 ∷ 159 ∷ 152 ∷ 128 ∷ 97 ∷ []) ≡ 55357 ∷ 56832 ∷ 97 ∷ []
unfolding encode_utf16 utf16_from units
encode_utf16_test = refl

-- A root directory of one cluster, a file made in it, and its lookup.
abbrev volume : Fat32State
volume = record {
  dev = fat_write_entry zero_disk two_tables 2 fat32_eoc;
  mounted = some two_tables;
}

cluster_chain-Follows_example :
    Follows volume.dev two_tables 3 2 (cluster_chain volume.dev two_tables 3 2)
cluster_chain-Follows_example = cluster_chain-Follows volume.dev two_tables 3 2

abbrev looked_up : Option (Option Node)
looked_up = elim (create_file 3 0 2 (97 ∷ []) volume) [
  | none ↦ none
  | some (r, st) ↦ lookup 3 st 2 (65 ∷ [])
]

looked_up_test :
    looked_up
    ≡ some (
        some
          (file_node record { first_cluster = 3; size = 0; entry_sector = 5; entry_offset = 32 }))
unfolding read_into fat_read_entry put_entry write_copies fat_write_entry max_cluster alloc_from
    fat_alloc_cluster cluster_chain data_start_sector cluster_to_sector fat_sector_for
    fat_offset_in_sector last push_char units utf16_from encode_utf16 till_zero decode_units
    read_lfn_chars parse_sfn trim_spaces to_ascii_lowercase to_ascii_uppercase eq_ignore_ascii_case
    split_dot any_invalid invalid base_and_ext build_sfn checksum_from sfn_checksum is_dir add_lfn
    entry_of add_sfn scan_entry scan_sector scan_cluster scan_chain read_dir_entries find_name
    find_entry_in_dir fat32_timestamp try_slot slots_of_sector slots_of_cluster slots_of_chain
    find_free_dir_slots write_dir_entry advance_dir_slot pad put_units lfn_entry lfn_flag write_lfn
    put_cluster sfn_entry create_dir_entry bpb_of node_of lookup refuse_existing new_cluster
    new_entry create_file read_sector write_sector bit str_eq is_empty le_at put_le to_le from_le
    is_utf8 utf8_from followers
looked_up_test = refl
