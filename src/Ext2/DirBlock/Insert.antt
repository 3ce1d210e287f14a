-- ===== src/Ext2/DirBlock/Insert.antt =====
-- A new entry in a directory block: `insert_in_block`, the scan of `add_entry` in fs/src/ext2/dir.rs.
use serix.Base.{
  ℕ, ◌+◌, ◌-◌, ◌^◌, min, ◌≤◌, ◌<◌, ◌≡◌, refl, ap, ap₂, ◌∙◌, List, [], ◌∷◌, arith, length, take,
  slice, splice, slice-splice, length-splice, le_at, put_le, from_le, to_le, slice-splice_before,
  length-put_le, le_at-put_le_one, le_at-put_le_two, le_at-put_le_four, le_at-put_le_before,
}
use serix.Vfs.Path.{Str}
use serix.Ext2.Dir.{entry_at}
use serix.Ext2.DirEdit.{entry_size, write_dir_entry}
use serix.Ext2.DirBlock.{Shows, Holds}

pub entry_size_lem : (n : ℕ) → (8 + n ≤ entry_size n) × (entry_size n ≤ n + 11)
unfolding entry_size
entry_size_lem n = omega arith

-- Bytes that two blocks share.
abbrev pub Agree : List ℕ → List ℕ → ℕ → ℕ → Type 0
Agree new block lo hi = (at n : ℕ) → lo ≤ at → at + n ≤ hi → slice at n new ≡ slice at n block

-- A changed block: the bytes before `off` stay, and from there on it holds the list.
pub record Changed (block new : List ℕ) (off : ℕ) (l : List (ℕ × Str)) : Type 0 where
  pub same_length : length new ≡ length block
  pub before : Agree new block 0 off
  pub holds : Holds new off l

-- An entry is read from the bytes of its own range.
pub Shows-Agree :
    (block new : List ℕ) {off rec_len ino : ℕ} {name : Str}
    → length new ≡ length block
    → Agree new block off (off + rec_len)
    → Shows block off rec_len ino name
    → Shows new off rec_len ino name
unfolding le_at entry_at
Shows-Agree block new {off} {rec_len} {ino} {name} l agree s =
    let z = entry_size_lem (le_at block (off + 6) 1) in
    let room = s.room in
    let size = s.size in
    let nl = ap from_le (agree (off + 6) 1 (omega arith) (omega (arith, z, size))) in
    let cut : min (le_at new (off + 6) 1) (length new - off - 8)
        ≡ min (le_at block (off + 6) 1) (length block - off - 8) =
      ap₂ (λ a b. min a (b - off - 8)) nl l in
    record {
      room = omega (arith, room, l);
      size = omega (arith, ap entry_size nl, size);
      fits = omega (arith, l, s.fits);
      shows_len =
          ap from_le (agree (off + 4) 2 (omega arith) (omega (arith, z, size))) ∙ s.shows_len;
      shows_ino = ap from_le (agree off 4 (omega arith) (omega (arith, z, size))) ∙ s.shows_ino;
      shows_name =
          ap (λ m. slice (off + 8) m new) cut
          ∙ agree (off + 8) (min (le_at block (off + 6) 1) (length block - off - 8)) (omega arith)
              (omega (arith, z, size))
          ∙ s.shows_name;
    }

take-length : (xs : List ℕ) → take (length xs) xs ≡ xs
take-length [] = refl
take-length (x ∷ xs) = ap (◌∷◌ x) (take-length xs)

pub length-write_dir_entry :
    (block : List ℕ) (off ino rec_len name_len file_type : ℕ) (name : Str)
    → length (write_dir_entry block off ino rec_len name_len file_type name) ≡ length block
unfolding write_dir_entry
length-write_dir_entry block off ino rec_len name_len file_type name =
    let w1 = put_le off 4 ino block in
    let w2 = put_le (off + 4) 2 rec_len w1 in
    let w3 = put_le (off + 6) 1 name_len w2 in
    length-splice (off + 8) (take name_len name) (put_le (off + 7) 1 file_type w3)
    ∙ length-put_le (off + 7) 1 file_type w3
    ∙ length-put_le (off + 6) 1 name_len w2
    ∙ length-put_le (off + 4) 2 rec_len w1
    ∙ length-put_le off 4 ino block

-- The bytes before the entry stay.
pub write_dir_entry-before :
    (block : List ℕ) (off ino rec_len name_len file_type : ℕ) (name : Str)
    → Agree (write_dir_entry block off ino rec_len name_len file_type name) block 0 off
unfolding write_dir_entry put_le
write_dir_entry-before block off ino rec_len name_len file_type name at n lo hi =
    let w1 = put_le off 4 ino block in
    let w2 = put_le (off + 4) 2 rec_len w1 in
    let w3 = put_le (off + 6) 1 name_len w2 in
    let w4 = put_le (off + 7) 1 file_type w3 in
    slice-splice_before at n (off + 8) (take name_len name) w4 (omega (arith, hi))
    ∙ slice-splice_before at n (off + 7) (to_le 1 file_type) w3 (omega (arith, hi))
    ∙ slice-splice_before at n (off + 6) (to_le 1 name_len) w2 (omega (arith, hi))
    ∙ slice-splice_before at n (off + 4) (to_le 2 rec_len) w1 (omega (arith, hi))
    ∙ slice-splice_before at n off (to_le 4 ino) block hi

-- The entry that was written is there.
pub Shows-write_dir_entry :
    (block : List ℕ) (off ino rec_len file_type : ℕ) (name : Str)
    → off + rec_len ≤ length block
    → entry_size (length name) ≤ rec_len
    → length name < 256
    → ino < 2 ^ 32
    → rec_len < 2 ^ 16
    → Shows
        (write_dir_entry block off ino rec_len (length name) file_type name)
        off
        rec_len
        ino
        name
unfolding write_dir_entry entry_at
Shows-write_dir_entry block off ino rec_len file_type name fits size short ino_ok rec_ok =
    let n = length name in
    let w1 = put_le off 4 ino block in
    let w2 = put_le (off + 4) 2 rec_len w1 in
    let w3 = put_le (off + 6) 1 n w2 in
    let w4 = put_le (off + 7) 1 file_type w3 in
    let new = splice (off + 8) (take n name) w4 in
    let z = entry_size_lem n in
    let l1 = length-put_le off 4 ino block in
    let l2 = length-put_le (off + 4) 2 rec_len w1 in
    let l3 = length-put_le (off + 6) 1 n w2 in
    let l4 = length-put_le (off + 7) 1 file_type w3 in
    let l5 = length-splice (off + 8) (take n name) w4 in
    let t = ap length (take-length name) in
    let head = λ (at m : ℕ) (q : at + m ≤ off + 8).
      ap from_le (slice-splice_before at m (off + 8) (take n name) w4 q) in
    let is_len : le_at new (off + 4) 2 ≡ rec_len =
      unfold le_at in
      head (off + 4) 2 (omega arith)
      ∙ le_at-put_le_before (off + 4) 2 (off + 7) 1 file_type w3 (omega arith)
      ∙ le_at-put_le_before (off + 4) 2 (off + 6) 1 n w2 (omega arith)
      ∙ le_at-put_le_two (off + 4) rec_len w1 (omega (arith, fits, size, z, l1)) rec_ok in
    let is_ino : le_at new off 4 ≡ ino =
      unfold le_at in
      head off 4 (omega arith)
      ∙ le_at-put_le_before off 4 (off + 7) 1 file_type w3 (omega arith)
      ∙ le_at-put_le_before off 4 (off + 6) 1 n w2 (omega arith)
      ∙ le_at-put_le_before off 4 (off + 4) 2 rec_len w1 (omega arith)
      ∙ le_at-put_le_four off ino block (omega (arith, fits, size, z)) ino_ok in
    let is_n : le_at new (off + 6) 1 ≡ n =
      unfold le_at in
      head (off + 6) 1 (omega arith)
      ∙ le_at-put_le_before (off + 6) 1 (off + 7) 1 file_type w3 (omega arith)
      ∙ le_at-put_le_one (off + 6) n w2 (omega (arith, fits, size, z, l1, l2)) short in
    let cut : min (le_at new (off + 6) 1) (length new - off - 8) ≡ length (take n name) =
      omega (arith, is_n, t, z, size, fits, l1, l2, l3, l4, l5) in
    record {
      room = omega (arith, fits, size, z, l1, l2, l3, l4, l5);
      size = omega (arith, ap entry_size is_n, size);
      fits = omega (arith, fits, l1, l2, l3, l4, l5);
      shows_len = is_len;
      shows_ino = is_ino;
      shows_name =
          ap (λ m. slice (off + 8) m new) cut
          ∙ slice-splice (off + 8) (take n name) w4
              (omega (arith, t, z, size, fits, l1, l2, l3, l4))
          ∙ take-length name;
    }
