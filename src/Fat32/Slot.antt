-- ===== src/Fat32/Slot.antt =====
-- A directory entry of fs/src/fat32/mod.rs that is written and read back.
use serix.Base.{
  if◌then◌else◌, some, none, ℕ, zero, suc, ◌+◌, ◌*◌, ◌/◌, ◌%◌, ◌^◌, ◌≤◌, ◌<◌, ◌≡◌, refl, sym, ap,
  ap₂, ◌∙◌, List, [], ◌∷◌, arith, length, get_or, set, slice, splice, replicate, le_at, put_le,
  length-set, length-splice, slice-splice, length-put_le, get_or-splice_before, get_or-set_self,
  to_le, slice-splice_after, le_at-put_le_before, le_at-put_le_after, le_at-put_le_two, from_le,
  slice-splice_before, Bool, ◌||◌, false, inl, inr, ◌⊎◌, ◌≢◌, ◌++◌, ◌==◌,
}
use serix.Block.{BlockDev, write_sector, Sized, Works}
use serix.Block.Sectors.{write_sector-Works, write_sector-here}
use serix.Vfs.Path.{str_eq, is_empty}
use serix.Fat32.Bpb.{zeros, read_into}
use serix.Fat32.Entries.{read_into-Works}
use serix.Bitmap.{bit}
use serix.Fat32.Names.{parse_sfn, decode_units}
use serix.Fat32.Dir.{DirEntry, Scan, attr_directory, attr_archive, entry_of, add_sfn, scan_entry}
use serix.Fat32.Create.{fat32_timestamp, put_cluster, sfn_entry, write_dir_entry}

get_or-put_le :
    (k off n v : ℕ) (bytes : List ℕ)
    → k < off
    → get_or (put_le off n v bytes) k 0 ≡ get_or bytes k 0
unfolding put_le
get_or-put_le k off n v bytes h = get_or-splice_before off (to_le n v) bytes k 0 h

length-splice_sfn : (sfn : List ℕ) → length (splice 0 sfn (replicate 32 0)) ≡ 32
length-splice_sfn sfn = length-splice 0 sfn (replicate 32 0)

-- A number after a byte that is set.
le_at-set_after :
    (at n i v : ℕ) (bytes : List ℕ) → i < at → le_at (set bytes i v) at n ≡ le_at bytes at n
unfolding le_at
le_at-set_after at n i v [] h = refl
le_at-set_after zero n i v (x ∷ bytes) h = absurd (omega (arith, h))
le_at-set_after (suc at) n zero v (x ∷ bytes) h = refl
le_at-set_after (suc at) n (suc i) v (x ∷ bytes) h =
    le_at-set_after at n i v bytes (omega (arith, h))

-- An entry before its times and its cluster are put in.
abbrev named : List ℕ → ℕ → List ℕ
named sfn attr = set (splice 0 sfn (replicate 32 0)) 11 attr

length-named : (sfn : List ℕ) (attr : ℕ) → length (named sfn attr) ≡ 32
length-named sfn attr = length-set (splice 0 sfn (replicate 32 0)) 11 attr ∙ length-splice_sfn sfn

-- The size of a new entry.
le_at-named : (sfn : List ℕ) (attr : ℕ) → length sfn ≡ 11 → le_at (named sfn attr) 28 4 ≡ 0
unfolding le_at from_le
le_at-named sfn attr l =
    (unfold le_at in le_at-set_after 28 4 11 attr (splice 0 sfn (replicate 32 0)) (omega arith))
    ∙ ap from_le (slice-splice_after 28 4 0 sfn (replicate 32 0) (omega (arith, l)))

-- The times, in the four places.
abbrev stamped : ℕ → ℕ → List ℕ → List ℕ
stamped t d e = put_le 24 2 d (put_le 22 2 t (put_le 16 2 d (put_le 14 2 t e)))

length-stamped : (t d : ℕ) (e : List ℕ) → length (stamped t d e) ≡ length e
length-stamped t d e =
    length-put_le 24 2 d (put_le 22 2 t (put_le 16 2 d (put_le 14 2 t e)))
    ∙ length-put_le 22 2 t (put_le 16 2 d (put_le 14 2 t e))
    ∙ length-put_le 16 2 d (put_le 14 2 t e)
    ∙ length-put_le 14 2 t e

get_or-stamped : (t d : ℕ) (e : List ℕ) → get_or (stamped t d e) 11 0 ≡ get_or e 11 0
get_or-stamped t d e =
    get_or-put_le 11 24 2 d (put_le 22 2 t (put_le 16 2 d (put_le 14 2 t e))) (omega arith)
    ∙ get_or-put_le 11 22 2 t (put_le 16 2 d (put_le 14 2 t e)) (omega arith)
    ∙ get_or-put_le 11 16 2 d (put_le 14 2 t e) (omega arith)
    ∙ get_or-put_le 11 14 2 t e (omega arith)

le_at-stamped : (t d : ℕ) (e : List ℕ) → le_at (stamped t d e) 28 4 ≡ le_at e 28 4
le_at-stamped t d e =
    le_at-put_le_after 28 4 24 2 d (put_le 22 2 t (put_le 16 2 d (put_le 14 2 t e))) (omega arith)
    ∙ le_at-put_le_after 28 4 22 2 t (put_le 16 2 d (put_le 14 2 t e)) (omega arith)
    ∙ le_at-put_le_after 28 4 16 2 d (put_le 14 2 t e) (omega arith)
    ∙ le_at-put_le_after 28 4 14 2 t e (omega arith)

-- The cluster of an entry, and what it leaves.
put_cluster-Keeps :
    (cluster : ℕ) (e : List ℕ)
    → length e ≡ 32
    → cluster < 2 ^ 32
    → (le_at (put_cluster cluster e) 20 2 * 2 ^ 16 + le_at (put_cluster cluster e) 26 2 ≡ cluster)
      × (get_or (put_cluster cluster e) 11 0 ≡ get_or e 11 0)
      × (le_at (put_cluster cluster e) 28 4 ≡ le_at e 28 4)
      × (length (put_cluster cluster e) ≡ 32)
unfolding put_cluster
put_cluster-Keeps cluster e l h =
    let hi = cluster / 2 ^ 16 in
    let lo = cluster % 2 ^ 16 in
    let with_hi = put_le 20 2 hi e in
    let l1 = length-put_le 20 2 hi e in
    let l2 = length-put_le 26 2 lo with_hi in
    let high =
      le_at-put_le_before 20 2 26 2 lo with_hi (omega arith)
      ∙ le_at-put_le_two 20 hi e (omega (arith, l)) (omega (arith, h)) in
    let low = le_at-put_le_two 26 lo with_hi (omega (arith, l, l1)) (omega arith) in
    (
      omega (arith, high, low),
      get_or-put_le 11 26 2 lo with_hi (omega arith) ∙ get_or-put_le 11 20 2 hi e (omega arith),
      le_at-put_le_after 28 4 26 2 lo with_hi (omega arith)
          ∙ le_at-put_le_after 28 4 20 2 hi e (omega arith),
      l2 ∙ l1 ∙ l,
    )

-- The name of an entry: its first eleven bytes.
slice-put_le :
    (off n v : ℕ) (bytes : List ℕ) → 11 ≤ off → slice 0 11 (put_le off n v bytes) ≡ slice 0 11 bytes
unfolding put_le
slice-put_le off n v bytes h = slice-splice_before 0 11 off (to_le n v) bytes h

take-set : (n i v : ℕ) (bytes : List ℕ) → n ≤ i → slice 0 n (set bytes i v) ≡ slice 0 n bytes
take-set n i v [] h = refl
take-set zero zero v (x ∷ bytes) h = refl
take-set (suc n) zero v (x ∷ bytes) h = absurd (omega (arith, h))
take-set zero (suc i) v (x ∷ bytes) h = refl
take-set (suc n) (suc i) v (x ∷ bytes) h = ap (◌∷◌ x) (take-set n i v bytes (omega (arith, h)))

slice-stamped : (t d : ℕ) (e : List ℕ) → slice 0 11 (stamped t d e) ≡ slice 0 11 e
slice-stamped t d e =
    slice-put_le 24 2 d (put_le 22 2 t (put_le 16 2 d (put_le 14 2 t e))) (omega arith)
    ∙ slice-put_le 22 2 t (put_le 16 2 d (put_le 14 2 t e)) (omega arith)
    ∙ slice-put_le 16 2 d (put_le 14 2 t e) (omega arith)
    ∙ slice-put_le 14 2 t e (omega arith)

slice-put_cluster : (cluster : ℕ) (e : List ℕ) → slice 0 11 (put_cluster cluster e) ≡ slice 0 11 e
unfolding put_cluster
slice-put_cluster cluster e =
    slice-put_le 26 2 (cluster % 2 ^ 16) (put_le 20 2 (cluster / 2 ^ 16) e) (omega arith)
    ∙ slice-put_le 20 2 (cluster / 2 ^ 16) e (omega arith)

slice-named : (sfn : List ℕ) (attr : ℕ) → length sfn ≡ 11 → slice 0 11 (named sfn attr) ≡ sfn
slice-named sfn attr l =
    let blank : List ℕ = replicate 32 0 in
    take-set 11 11 attr (splice 0 sfn blank) (omega arith)
    ∙ ap (λ n. slice 0 n (splice 0 sfn blank)) (sym l)
    ∙ slice-splice 0 sfn blank (omega (arith, l))

first_byte : (bytes : List ℕ) → get_or (slice 0 11 bytes) 0 0 ≡ get_or bytes 0 0
first_byte [] = refl
first_byte (x ∷ bytes) = refl

-- What an entry shows to the scan.
record Fields (raw sfn : List ℕ) (attr cluster : ℕ) : Type 0 where
  pub first_cluster : le_at raw 20 2 * 2 ^ 16 + le_at raw 26 2 ≡ cluster
  pub attribute : get_or raw 11 0 ≡ attr
  pub size : le_at raw 28 4 ≡ 0
  pub whole : length raw ≡ 32
  pub short_name : slice 0 11 raw ≡ sfn

sfn_entry-Fields :
    (ticks attr cluster : ℕ) (sfn : List ℕ)
    → length sfn ≡ 11
    → cluster < 2 ^ 32
    → Fields (sfn_entry ticks sfn attr cluster) sfn attr cluster
unfolding sfn_entry fat32_timestamp
sfn_entry-Fields ticks attr cluster sfn l h =
    let (t, d) = fat32_timestamp ticks in
    let n = named sfn attr in
    let len = length-named sfn attr in
    let k = put_cluster-Keeps cluster (stamped t d n) (length-stamped t d n ∙ len) h in
    let at =
      get_or-set_self (splice 0 sfn (replicate 32 0)) 11 attr 0
        (omega (arith, length-splice_sfn sfn)) in
    record {
      first_cluster = k.0;
      attribute = k.1 ∙ get_or-stamped t d n ∙ at;
      size = k.2 ∙ le_at-stamped t d n ∙ le_at-named sfn attr l;
      whole = k.3;
      short_name =
          slice-put_cluster cluster (stamped t d n) ∙ slice-stamped t d n ∙ slice-named sfn attr l;
    }

-- The slot that was written.
slice-write_dir_entry :
    (dev : BlockDev) (sector offset : ℕ) (entry : List ℕ)
    → Works dev
    → Sized dev
    → length entry ≡ 32
    → offset + 32 ≤ 512
    → slice offset 32 (read_into (write_dir_entry dev sector offset entry) sector zeros) ≡ entry
unfolding write_dir_entry
slice-write_dir_entry dev sector offset entry w z l h =
    let old = read_into dev sector zeros in
    let filled = read_into-Works dev sector zeros w in
    let buf = splice offset entry old in
    let w1 = write_sector-Works dev sector buf w in
    let read =
      read_into-Works (write_sector dev sector buf).1 sector zeros w1
      ∙ write_sector-here dev sector buf w in
    let fits : length old ≡ 512 = ap length filled ∙ z sector in
    ap₂ (λ n b. slice offset n b) (sym l) read
    ∙ slice-splice offset entry old (omega (arith, l, h, fits))

-- The name that an entry gets in a scan: the long name that was read before it, or else the short one.
abbrev pub name_of : List ℕ → Scan → List ℕ
name_of sfn s = if is_empty s.lfn_buf then parse_sfn sfn else decode_units s.lfn_buf

-- Where the entry begins: with its long name, or else in its slot.
abbrev pub start_of : ℕ → ℕ → Scan → ℕ × ℕ
start_of sector offset s = elim s.lfn_start [ none ↦ (sector, offset) | some p ↦ p ]

-- The entry that a slot shows in a scan.
abbrev pub shown : ℕ → ℕ → List ℕ → ℕ → ℕ → Scan → DirEntry
shown sector offset sfn attr cluster s = record {
  name = name_of sfn s;
  attr = attr;
  first_cluster = cluster;
  size = 0;
  entry_sector = sector;
  entry_offset = offset;
  lfn_start_sector = (start_of sector offset s).0;
  lfn_start_offset = (start_of sector offset s).1;
}

-- A scan that has found one entry more, and has no part of a long name left.
abbrev pub found : Scan → DirEntry → Scan
found s e = record s { entries = s.entries ++ e ∷ []; lfn_buf = []; lfn_start = none }

abbrev pub is_dots : List ℕ → Bool
is_dots name = str_eq name (b'.' ∷ []) || str_eq name (b'.' ∷ b'.' ∷ [])

scan_entry-Fields :
    (sector offset attr cluster : ℕ) (sfn raw : List ℕ) (s : Scan)
    → Fields raw sfn attr cluster
    → get_or sfn 0 0 ≢ 0
    → get_or sfn 0 0 ≢ 229
    → (attr ≡ attr_directory) ⊎ (attr ≡ attr_archive)
    → is_dots (name_of sfn s) ≡ false
    → scan_entry sector offset raw s ≡ found s (shown sector offset sfn attr cluster s)
unfolding scan_entry add_sfn entry_of bit
scan_entry-Fields sector offset attr cluster sfn raw s f nz nd a dots =
    let first = sym (first_byte raw) ∙ ap (λ b. get_or b 0 0) f.short_name in
    let used : (get_or raw 0 0 == 0) ≡ false = ground (arith, first, nz) in
    let live : (get_or raw 0 0 == 229) ≡ false = ground (arith, first, nd) in
    elim a [
      | inl e ↦
          let at = f.attribute ∙ e in
          rw (used, live, at, f.short_name, dots, f.first_cluster, f.size, e) refl
      | inr e ↦
          let at = f.attribute ∙ e in
          rw (used, live, at, f.short_name, dots, f.first_cluster, f.size, e) refl
    ]

-- On a device on which no transfer fails and whose sectors have 512 bytes: an entry that
-- `create_dir_entry` makes from a short name of eleven bytes, the attributes of a directory or of a file
-- and a cluster of 32 bits, written to a slot of a sector, is what the scan of the directory, in whatever
-- state it comes to the slot, finds there: with these attributes, this first cluster and the size 0, and
-- with the long name that the scan has read, or the text of the short name if it has read none. The short
-- name does not begin with 0 or with 0xE5, the mark of a deleted entry, and the name found is not `.` or
-- `..`.
pub scan_entry-write_dir_entry :
    (dev : BlockDev) (ticks sector offset attr cluster : ℕ) (sfn : List ℕ) (s : Scan)
    → Works dev
    → Sized dev
    → length sfn ≡ 11
    → cluster < 2 ^ 32
    → offset + 32 ≤ 512
    → get_or sfn 0 0 ≢ 0
    → get_or sfn 0 0 ≢ 229
    → (attr ≡ attr_directory) ⊎ (attr ≡ attr_archive)
    → is_dots (name_of sfn s) ≡ false
    → scan_entry sector offset
        (slice offset 32 (
          read_into
            (write_dir_entry dev sector offset (sfn_entry ticks sfn attr cluster))
            sector
            zeros))
        s
      ≡ found s (shown sector offset sfn attr cluster s)
scan_entry-write_dir_entry dev ticks sector offset attr cluster sfn s w z l c h nz nd a dots =
    let f = sfn_entry-Fields ticks attr cluster sfn l c in
    let raw = sfn_entry ticks sfn attr cluster in
    ap (λ b. scan_entry sector offset b s)
      (slice-write_dir_entry dev sector offset raw w z f.whole h)
    ∙ scan_entry-Fields sector offset attr cluster sfn raw s f nz nd a dots
