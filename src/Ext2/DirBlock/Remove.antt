-- ===== src/Ext2/DirBlock/Remove.antt =====
-- The two ways in which `remove_entry` of fs/src/ext2/dir.rs takes an entry out of a block: the entry
-- before it grows over it, or the first entry of the block is marked free.
use serix.Base.{
  ℕ, ◌+◌, ◌%◌, ◌^◌, ◌≤◌, ◌<◌, ◌≡◌, sym, ap, ◌∙◌, List, some, arith, min, ◌-◌, length, le_at, put_le,
  slice, to_le, length-to_le, slice-splice_before, slice-splice_after, length-put_le,
  le_at-put_le_four, le_at-put_le_two, le_at-put_le_before, le_at-put_le_after,
}
use serix.Vfs.Path.{Str}
use serix.Ext2.Dir.{entry_at}
use serix.Ext2.DirEdit.{entry_size, unlink_entry}
use serix.Ext2.DirBlock.{Shows, Holds, last, next}
use serix.Ext2.DirBlock.Insert.{Agree, Shows-Agree, entry_size_lem}

-- The same entries from `off` on in a block that shares the bytes from there on.
pub Holds-Agree :
    (block new : List ℕ) (lo : ℕ) {off : ℕ} {l : List (ℕ × Str)}
    → length new ≡ length block
    → Agree new block lo (length block)
    → lo ≤ off
    → Holds block off l
    → Holds new off l
Holds-Agree block new lo len agree h (last s e) =
    let fits = s.fits in
    last
      (Shows-Agree block new len
        (λ at m a b. agree at m (omega (arith, a, h)) (omega (arith, b, fits))) s)
      (e ∙ sym len)
Holds-Agree block new lo len agree h (next s k) =
    let fits = s.fits in
    next
      (Shows-Agree block new len
        (λ at m a b. agree at m (omega (arith, a, h)) (omega (arith, b, fits))) s)
      (Holds-Agree block new lo len agree (omega (arith, h)) k)

-- The first entry of a block, freed.
pub free_first :
    (block : List ℕ) {rec_len ino : ℕ} {name : Str}
    → Shows block 0 rec_len ino name
    → Shows (put_le 0 4 0 block) 0 rec_len 0 name
unfolding entry_at
free_first block {rec_len} {ino} {name} s =
    let new = put_le 0 4 0 block in
    let l = length-put_le 0 4 0 block in
    let lt = length-to_le 4 0 in
    let is_n = le_at-put_le_after 6 1 0 4 0 block (omega arith) in
    let cut : min (le_at new 6 1) (length new - 0 - 8)
        ≡ min (le_at block 6 1) (length block - 0 - 8) =
      omega (arith, is_n, l) in
    record {
      room = omega (arith, s.room, l);
      size = omega (arith, ap entry_size is_n, s.size);
      fits = omega (arith, s.fits, l);
      shows_len = le_at-put_le_after 4 2 0 4 0 block (omega arith) ∙ s.shows_len;
      shows_ino = le_at-put_le_four 0 0 block (omega (arith, s.room)) (omega arith);
      shows_name =
          ap (λ m. slice 8 m new) cut
          ∙ unfold put_le in
            slice-splice_after 8 (min (le_at block 6 1) (length block - 0 - 8)) 0 (to_le 4 0) block
              (omega (arith, lt))
            ∙ s.shows_name;
    }

-- An entry that takes over the bytes of the one after it.
pub absorb :
    (block : List ℕ) {off n ino m other : ℕ} {name name' : Str}
    → length block < 2 ^ 16
    → Shows block off n ino name
    → Shows block (off + n) m other name'
    → (length (unlink_entry block (off + n) (some off) m) ≡ length block)
      × Agree (unlink_entry block (off + n) (some off) m) block 0 (off + 4)
      × Agree (unlink_entry block (off + n) (some off) m) block (off + n + m) (length block)
      × Shows (unlink_entry block (off + n) (some off) m) off (n + m) ino name
unfolding unlink_entry entry_at
absorb block {off} {n} {ino} {m} small s s' =
    let nl = le_at block (off + 6) 1 in
    let z = entry_size_lem nl in
    let z' = entry_size_lem (le_at block (off + n + 6) 1) in
    let size = s.size in
    let size' = s'.size in
    let fits' = s'.fits in
    let zeroed = put_le (off + n) 4 0 block in
    let l1 = length-put_le (off + n) 4 0 block in
    let was =
      le_at-put_le_before (off + 4) 2 (off + n) 4 0 block (omega (arith, z, size)) ∙ s.shows_len in
    let val = (le_at zeroed (off + 4) 2 + m) % 2 ^ 16 in
    let is_val : val ≡ n + m = omega (arith, was, fits', small) in
    let new = put_le (off + 4) 2 val zeroed in
    let l2 = length-put_le (off + 4) 2 val zeroed in
    let lt = length-to_le 2 val in
    let lz = length-to_le 4 0 in
    let is_n =
      le_at-put_le_after (off + 6) 1 (off + 4) 2 val zeroed (omega arith)
      ∙ le_at-put_le_before (off + 6) 1 (off + n) 4 0 block (omega (arith, z, size)) in
    let cut : min (le_at new (off + 6) 1) (length new - off - 8) ≡ min nl (length block - off - 8) =
      omega (arith, is_n, l1, l2) in
    (
      l2 ∙ l1,
      (λ at k lo hi.
          unfold put_le in
          slice-splice_before at k (off + 4) (to_le 2 val) zeroed hi
          ∙ slice-splice_before at k (off + n) (to_le 4 0) block (omega (arith, hi, z, size))),
      (λ at k lo hi.
          unfold put_le in
          slice-splice_after at k (off + 4) (to_le 2 val) zeroed (omega (arith, lt, lo, z, size))
          ∙ slice-splice_after at k (off + n) (to_le 4 0) block (omega (arith, lz, lo, z', size'))),
      record {
        room = omega (arith, s.room, l1, l2);
        size = omega (arith, ap entry_size is_n, size);
        fits = omega (arith, fits', l1, l2);
        shows_len =
            le_at-put_le_two (off + 4) val zeroed (omega (arith, s.room, l1))
              (omega (arith, is_val, fits', small))
            ∙ is_val;
        shows_ino =
            le_at-put_le_before off 4 (off + 4) 2 val zeroed (omega arith)
            ∙ le_at-put_le_before off 4 (off + n) 4 0 block (omega (arith, z, size))
            ∙ s.shows_ino;
        shows_name =
            ap (λ k. slice (off + 8) k new) cut
            ∙ unfold put_le in
              slice-splice_after (off + 8) (min nl (length block - off - 8)) (off + 4) (to_le 2 val)
                zeroed (omega (arith, lt))
              ∙ slice-splice_before (off + 8) (min nl (length block - off - 8)) (off + n)
                  (to_le 4 0) block (omega (arith, z, size))
              ∙ s.shows_name;
      },
    )
