-- ===== src/Fat32/Node.antt =====
-- Directories and files of FAT32 as the VFS calls them: FatDirINode, FatFileINode and the mount of
-- fs/src/fat32/mod.rs. A call gives none when a loop does not end within the fuel.
use serix.Base.{
  ℕ, zero, suc, ◌&&◌, List, [], ◌∷◌, map, Option, none, some, if◌then◌else◌, ◌==◌, set, splice,
  replicate, put_le,
}
use serix.Block.{BlockDev, write_sector}
use serix.Vfs.{FileType, file, directory}
use serix.Vfs.Path.{Str}
use serix.Fat32.Bpb.{Bpb, zeros, read_into, parse, cluster_to_sector}
use serix.Fat32.Fat.{fat32_free, cluster_chain, fat_alloc_cluster, fat_write_entry}
use serix.Fat32.File.{FatFile, read, write}
use serix.Fat32.Dir.{
  DirEntry, attr_directory, attr_archive, is_dir, read_dir_entries, find_entry_in_dir,
}
use serix.Fat32.Create.{
  fat32_timestamp, zero_cluster, write_dir_entry, advance_dir_slot, put_cluster, create_dir_entry,
}

-- The global device and the parameters of the volume that is mounted.
pub record Fat32State : Type 0 where
  pub dev : BlockDev
  pub mounted : Option Bpb

-- The messages of the errors.
pub data Error : Type 0 where
  not_mounted file_exists disk_full entry_failed not_found : Error

pub data Result (A : Type 0) : Type 0 where
  ok : A → Result A
  err : Error → Result A

abbrev pub Call : Type 0 → Type 0
Call A = Fat32State → Option (Result A × Fat32State)

infixl 5 ◌>>>◌
abbrev pub ◌>>>◌ : {A B : Type 0} → Call A → (A → Call B) → Call B
◌>>>◌ m f st = elim (m st) [
  | none ↦ none
  | some (ok a, st') ↦ f a st'
  | some (err e, st') ↦ some (err e, st')
]

abbrev pub give : {A : Type 0} → A → Call A
give a st = some (ok a, st)

abbrev pub change : (BlockDev → BlockDev) → Call (Unit {0})
change f st = some (ok tt, record st { dev = f st.dev })

-- `ok_or` and `?`
abbrev pub or_raise : {A : Type 0} → (BlockDev → Option (Option A × BlockDev)) → Error → Call A
or_raise m e st = elim (m st.dev) [
  | none ↦ none
  | some (none, dev) ↦ some (err e, record st { dev = dev })
  | some (some a, dev) ↦ some (ok a, record st { dev = dev })
]

unfoldable pub bpb_of : Call Bpb
bpb_of st = elim st.mounted [ none ↦ some (err not_mounted, st) | some bpb ↦ some (ok bpb, st) ]

-- The root, with cluster 2 when nothing is mounted.
unfoldable pub root : Fat32State → ℕ
root st = elim st.mounted [ none ↦ 2 | some bpb ↦ bpb.root_cluster ]

pub data Node : Type 0 where
  dir_node : ℕ → Node
  file_node : FatFile → Node

unfoldable pub node_of : DirEntry → Node
node_of e =
    if is_dir e
    then dir_node e.first_cluster
    else file_node record {
      first_cluster = e.first_cluster;
      size = e.size;
      entry_sector = e.entry_sector;
      entry_offset = e.entry_offset;
    }

-- The outer `none` is a chain that does not end.
unfoldable pub lookup : ℕ → Fat32State → ℕ → Str → Option (Option Node)
lookup fuel st cluster name = elim st.mounted [
  | none ↦ some none
  | some bpb ↦ elim (find_entry_in_dir fuel st.dev bpb cluster name) [
    | none ↦ none
    | some none ↦ some none
    | some (some e) ↦ some (some (node_of e))
  ]
]

-- A new name: an error when an entry has it.
unfoldable pub refuse_existing : ℕ → Bpb → ℕ → Str → Call (Unit {0})
refuse_existing fuel bpb cluster name st = elim (find_entry_in_dir fuel st.dev bpb cluster name) [
  | none ↦ none
  | some none ↦ some (ok tt, st)
  | some (some e) ↦ some (err file_exists, st)
]

unfoldable pub new_cluster : Bpb → Call ℕ
new_cluster bpb = or_raise (λ dev. some (fat_alloc_cluster dev bpb)) disk_full

unfoldable pub new_entry : ℕ → ℕ → Bpb → ℕ → Str → ℕ → ℕ → Call (ℕ × ℕ)
new_entry fuel ticks bpb cluster name attr first =
    or_raise (λ dev. create_dir_entry fuel ticks dev bpb cluster name attr first) entry_failed

unfoldable pub create_file : ℕ → ℕ → ℕ → Str → Call Node
create_file fuel ticks cluster name = bpb_of >>> (λ bpb.
    refuse_existing fuel bpb cluster name >>> (λ _. new_cluster bpb >>> (λ cl.
      new_entry fuel ticks bpb cluster name attr_archive cl >>> (λ at. give (
        file_node
          record { first_cluster = cl; size = 0; entry_sector = at.0; entry_offset = at.1 })))))

-- The node that is given is not looked at.
unfoldable pub insert : ℕ → ℕ → ℕ → Str → Node → Call (Unit {0})
insert fuel ticks cluster name node = bpb_of >>> (λ bpb.
    refuse_existing fuel bpb cluster name >>> (λ _.
      new_cluster bpb
      >>> (λ cl. new_entry fuel ticks bpb cluster name attr_archive cl >>> (λ _. give tt))))

-- An entry `.` or `..` of a new directory.
unfoldable pub dots_entry : ℕ → Str → ℕ → List ℕ
dots_entry ticks name cluster =
    let (t, d) = fat32_timestamp ticks in
    let named = splice 0 name (splice 0 (replicate 11 32) (replicate 32 0)) in
    put_cluster cluster (put_le 16 2 d (put_le 14 2 t (set named 11 attr_directory)))

-- The first cluster of a new directory.
unfoldable pub fill_dir : ℕ → Bpb → ℕ → ℕ → BlockDev → BlockDev
fill_dir ticks bpb cl parent dev =
    let sector = cluster_to_sector bpb cl in
    let empty = zero_cluster dev sector bpb.sectors_per_cluster in
    let with_dot = write_dir_entry empty sector 0 (dots_entry ticks (b'.' ∷ []) cl) in
    write_dir_entry with_dot sector 32 (dots_entry ticks (b'.' ∷ b'.' ∷ []) parent)

unfoldable pub mkdir : ℕ → ℕ → ℕ → Str → Call (Unit {0})
mkdir fuel ticks cluster name = bpb_of >>> (λ bpb. refuse_existing fuel bpb cluster name >>> (λ _.
    new_cluster bpb >>> (λ cl.
      change (fill_dir ticks bpb cl cluster)
      >>> (λ _. new_entry fuel ticks bpb cluster name attr_directory cl >>> (λ _. give tt)))))

unfoldable pub free_chain : Bpb → List ℕ → BlockDev → BlockDev
free_chain bpb [] dev = dev
free_chain bpb (cl ∷ chain) dev = free_chain bpb chain (fat_write_entry dev bpb cl fat32_free)

unfoldable pub delete_slot : ℕ → ℕ → BlockDev → BlockDev
delete_slot sector offset dev =
    (write_sector dev sector (set (read_into dev sector zeros) offset 229)).1

-- The slots from one on up to that of the entry, marked as deleted, over as many rounds as fuel.
unfoldable pub delete_slots : ℕ → DirEntry → ℕ → ℕ → BlockDev → Option BlockDev
delete_slots zero e sector offset dev = none
delete_slots (suc fuel) e sector offset dev =
    let dev1 = delete_slot sector offset dev in
    let (next_sector, next_offset) = advance_dir_slot sector offset in
    let rest = delete_slots fuel e next_sector next_offset dev1 in
    if sector == e.entry_sector && offset == e.entry_offset then some dev1 else rest

unfoldable pub delete_entry : ℕ → Bpb → DirEntry → BlockDev → Option BlockDev
delete_entry fuel bpb e dev = elim (cluster_chain dev bpb fuel e.first_cluster) [
  | none ↦ none
  | some chain ↦
      delete_slots fuel e e.lfn_start_sector e.lfn_start_offset (free_chain bpb chain dev)
]

unfoldable pub find_or_raise : ℕ → Bpb → ℕ → Str → Call DirEntry
find_or_raise fuel bpb cluster name st = elim (find_entry_in_dir fuel st.dev bpb cluster name) [
  | none ↦ none
  | some none ↦ some (err not_found, st)
  | some (some e) ↦ some (ok e, st)
]

unfoldable pub unlink : ℕ → ℕ → Str → Call (Unit {0})
unlink fuel cluster name = bpb_of >>> (λ bpb. find_or_raise fuel bpb cluster name >>> (λ e st.
    elim (delete_entry fuel bpb e st.dev) [
      | none ↦ none
      | some dev ↦ some (ok tt, record st { dev = dev })
    ]))

unfoldable pub file_type : DirEntry → FileType
file_type e = if is_dir e then directory else file

-- The inner `none` is a volume that is not mounted.
unfoldable pub readdir : ℕ → Fat32State → ℕ → Option (Option (List (Str × FileType)))
readdir fuel st cluster = elim st.mounted [
  | none ↦ some none
  | some bpb ↦ elim (read_dir_entries fuel st.dev bpb cluster) [
    | none ↦ none
    | some entries ↦ some (some (map (λ e. (e.name, file_type e)) entries))
  ]
]

-- Reads and writes of an open file give 0 bytes when nothing is mounted.
unfoldable pub read_node : ℕ → Fat32State → FatFile → ℕ → List ℕ → Option (ℕ × List ℕ)
read_node fuel st f offset buf = elim st.mounted [
  | none ↦ some (0, buf)
  | some bpb ↦ read fuel st.dev bpb f offset buf
]

unfoldable pub write_node :
    ℕ → Fat32State → FatFile → ℕ → List ℕ → Option (ℕ × FatFile × Fat32State)
write_node fuel st f offset buf = elim st.mounted [
  | none ↦ some (0, f, st)
  | some bpb ↦ elim (write fuel st.dev bpb f offset buf) [
    | none ↦ none
    | some (written, f1, dev) ↦ some (written, f1, record st { dev = dev })
  ]
]

-- The first mount sets the parameters, and later ones leave them: `call_once`.
unfoldable pub mount : Fat32State → Option ℕ × Fat32State
mount st =
    let once : Bpb → Fat32State =
      λ bpb. record st { mounted = elim st.mounted [ none ↦ some bpb | some b ↦ some b ] } in
    elim (parse (read_into st.dev 0 zeros)) [
      | none ↦ (none, st)
      | some bpb ↦ (some (root (once bpb)), once bpb)
    ]
