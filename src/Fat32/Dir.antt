-- ===== src/Fat32/Dir.antt =====
-- The scan of a directory in fs/src/fat32/mod.rs: `read_dir_entries` and `find_entry_in_dir`.
use serix.Base.{
  ℕ, zero, suc, ◌+◌, ◌*◌, ◌^◌, Bool, true, false, not, ◌&&◌, ◌||◌, List, [], ◌∷◌, ◌++◌, Option,
  none, some, if◌then◌else◌, ◌==◌, get_or, slice, le_at,
}
use serix.Block.{BlockDev}
use serix.Vfs.Path.{Str, str_eq, is_empty}
use serix.Bitmap.{bit}
use serix.Fat32.Bpb.{Bpb, zeros, read_into, cluster_to_sector}
use serix.Fat32.Fat.{cluster_chain}
use serix.Fat32.Names.{read_lfn_chars, till_zero, decode_units, parse_sfn, eq_ignore_ascii_case}

pub record DirEntry : Type 0 where
  pub name : Str
  pub attr : ℕ
  pub first_cluster : ℕ
  pub size : ℕ
  pub entry_sector : ℕ
  pub entry_offset : ℕ
  pub lfn_start_sector : ℕ
  pub lfn_start_offset : ℕ

abbrev pub attr_directory : ℕ
attr_directory = 16

abbrev pub attr_archive : ℕ
attr_archive = 32

-- Read-only, hidden, system and volume id together.
abbrev pub attr_lfn : ℕ
attr_lfn = 15

unfoldable pub is_dir : DirEntry → Bool
is_dir e = bit 4 e.attr

-- The variables of the loops, and whether the end of the directory was met.
pub record Scan : Type 0 where
  pub entries : List DirEntry
  pub lfn_buf : List ℕ
  pub lfn_start : Option (ℕ × ℕ)
  pub ended : Bool

abbrev forget : Scan → Scan
forget s = record s { lfn_buf = []; lfn_start = none }

-- A part of a long name; the parts stand in reverse order.
unfoldable pub add_lfn : ℕ → ℕ → List ℕ → Scan → Scan
add_lfn sector offset raw s =
    let is_last = bit 6 (get_or raw 0 0) in
    let chunk = till_zero (read_lfn_chars raw) in
    record s {
      lfn_buf = chunk ++ (if is_last then [] else s.lfn_buf);
      lfn_start = if is_last then some (sector, offset) else s.lfn_start;
    }

unfoldable pub entry_of : ℕ → ℕ → List ℕ → Str → ℕ × ℕ → DirEntry
entry_of sector offset raw name (start, start_offset) = record {
  name = name;
  attr = get_or raw 11 0;
  first_cluster = le_at raw 20 2 * 2 ^ 16 + le_at raw 26 2;
  size = le_at raw 28 4;
  entry_sector = sector;
  entry_offset = offset;
  lfn_start_sector = start;
  lfn_start_offset = start_offset;
}

-- An entry with a short name, which takes the long name read before it.
unfoldable pub add_sfn : ℕ → ℕ → List ℕ → Scan → Scan
add_sfn sector offset raw s =
    let name = if is_empty s.lfn_buf then parse_sfn (slice 0 11 raw) else decode_units s.lfn_buf in
    let start : ℕ × ℕ = elim s.lfn_start [ none ↦ (sector, offset) | some p ↦ p ] in
    let is_dots = str_eq name (b'.' ∷ []) || str_eq name (b'.' ∷ b'.' ∷ []) in
    record s {
      entries =
          if is_dots then s.entries else s.entries ++ entry_of sector offset raw name start ∷ [];
      lfn_buf = [];
      lfn_start = none;
    }

unfoldable pub scan_entry : ℕ → ℕ → List ℕ → Scan → Scan
scan_entry sector offset raw s =
    let first = get_or raw 0 0 in
    let attr = get_or raw 11 0 in
    if first == 0
    then record s { ended = true }
    else if first == 229
    then forget s
    else if attr == attr_lfn
    then add_lfn sector offset raw s
    else if bit 3 attr && not (bit 4 attr)
    then forget s
    else add_sfn sector offset raw s

-- `n` entries of a sector, from one on.
unfoldable pub scan_sector : ℕ → List ℕ → ℕ → ℕ → Scan → Scan
scan_sector sector buf entry_idx zero s = s
scan_sector sector buf entry_idx (suc n) s =
    let offset = entry_idx * 32 in
    let next = scan_entry sector offset (slice offset 32 buf) s in
    scan_sector sector buf (entry_idx + 1) n (if s.ended then s else next)

-- `n` sectors of a cluster.
unfoldable pub scan_cluster : BlockDev → ℕ → ℕ → Scan → Scan
scan_cluster dev sector zero s = s
scan_cluster dev sector (suc n) s =
    scan_cluster dev (sector + 1) n (scan_sector sector (read_into dev sector zeros) 0 16 s)

unfoldable pub scan_chain : BlockDev → Bpb → List ℕ → Scan → Scan
scan_chain dev bpb [] s = s
scan_chain dev bpb (cl ∷ chain) s =
    scan_chain dev bpb chain (scan_cluster dev (cluster_to_sector bpb cl) bpb.sectors_per_cluster s)

-- None when the chain does not end within the fuel.
unfoldable pub read_dir_entries : ℕ → BlockDev → Bpb → ℕ → Option (List DirEntry)
read_dir_entries fuel dev bpb first_cluster =
    let start : Scan = record { entries = []; lfn_buf = []; lfn_start = none; ended = false } in
    elim (cluster_chain dev bpb fuel first_cluster) [
      | none ↦ none
      | some chain ↦ some (scan_chain dev bpb chain start).entries
    ]

unfoldable pub find_name : Str → List DirEntry → Option DirEntry
find_name name [] = none
find_name name (e ∷ es) = if eq_ignore_ascii_case e.name name then some e else find_name name es

unfoldable pub find_entry_in_dir : ℕ → BlockDev → Bpb → ℕ → Str → Option (Option DirEntry)
find_entry_in_dir fuel dev bpb dir_cluster name = elim (read_dir_entries fuel dev bpb dir_cluster) [
  | none ↦ none
  | some entries ↦ some (find_name name entries)
]
