-- ===== src/Ext2/DirBlock/Split.antt =====
-- The scan of `add_entry` in fs/src/ext2/dir.rs: the last entry of a block gives its slack away.
use serix.Base.{
  ℕ, zero, suc, ◌+◌, ◌-◌, ◌%◌, ◌^◌, min, ◌≤◌, ◌<◌, ◌≡◌, refl, sym, ap, ◌∙◌, Bool, true, false, List,
  [], ◌∷◌, ◌++◌, none, some, arith, if◌then◌else◌, inl, inr, leb, length, slice, le_at, put_le,
  some_inj, none≢some, Bool-cases, to_le, length-to_le, slice-splice_before, slice-splice_after,
  length-put_le, subst, le_at-put_le_two, le_at-put_le_before, le_at-put_le_after,
}
use serix.Vfs.Path.{Str}
use serix.Ext2.Dir.{entry_at}
use serix.Ext2.DirEdit.{entry_size, write_dir_entry, split_last, insert_from, insert_in_block}
use serix.Ext2.DirBlock.{Shows, Holds, last, next}
use serix.Ext2.DirBlock.Insert.{
  Changed, Shows-Agree, entry_size_lem, length-write_dir_entry, write_dir_entry-before,
  Shows-write_dir_entry,
}

-- An entry shrunk to the size of its name.
shrink :
    (block : List ℕ) {off rec_len ino : ℕ} {name : Str}
    → length block < 2 ^ 16
    → Shows block off rec_len ino name
    → Shows
        (put_le (off + 4) 2 (entry_size (le_at block (off + 6) 1)) block)
        off
        (entry_size (le_at block (off + 6) 1))
        ino
        name
unfolding entry_at
shrink block {off} {rec_len} {ino} {name} small s =
    let n = le_at block (off + 6) 1 in
    let z = entry_size_lem n in
    let new = put_le (off + 4) 2 (entry_size n) block in
    let l = length-put_le (off + 4) 2 (entry_size n) block in
    let room = s.room in
    let size = s.size in
    let fits = s.fits in
    let is_n : le_at new (off + 6) 1 ≡ n =
      le_at-put_le_after (off + 6) 1 (off + 4) 2 (entry_size n) block (omega arith) in
    let cut : min (le_at new (off + 6) 1) (length new - off - 8) ≡ min n (length block - off - 8) =
      omega (arith, is_n, l) in
    let lt = length-to_le 2 (entry_size n) in
    record {
      room = omega (arith, room, l);
      size = omega (arith, ap entry_size is_n);
      fits = omega (arith, fits, size, l);
      shows_len =
          le_at-put_le_two (off + 4) (entry_size n) block (omega (arith, room))
            (omega (arith, fits, size, small));
      shows_ino =
          le_at-put_le_before off 4 (off + 4) 2 (entry_size n) block (omega arith) ∙ s.shows_ino;
      shows_name =
          ap (λ m. slice (off + 8) m new) cut
          ∙ unfold put_le in
            slice-splice_after (off + 8) (min n (length block - off - 8)) (off + 4)
              (to_le 2 (entry_size n)) block (omega (arith, lt))
            ∙ s.shows_name;
    }

pub Holds-room :
    {block : List ℕ} {off : ℕ} {l : List (ℕ × Str)} → Holds block off l → off + 8 ≤ length block
Holds-room (last s e) = s.room
Holds-room (next s h) = s.room

if_true {ℓ} : {A : Type ℓ} {b : Bool} (x y : A) → b ≡ true → (if b then x else y) ≡ x
if_true x y h = rw h

if_false {ℓ} : {A : Type ℓ} {b : Bool} (x y : A) → b ≡ false → (if b then x else y) ≡ y
if_false x y h = rw h

module _ (child_ino file_type : ℕ) (name : Str) (short : length name < 256)
    (ino_ok : child_ino < 2 ^ 32) where
  -- What the entry gives away, and the block with a new entry there.
  slack : List ℕ → ℕ → ℕ → ℕ
  slack block off rec_len = rec_len - entry_size (le_at block (off + 6) 1)

  split : List ℕ → ℕ → ℕ → List ℕ
  unfolding slack
  split block off rec_len =
      let actual = entry_size (le_at block (off + 6) 1) in
      write_dir_entry (put_le (off + 4) 2 actual block) (off + actual) child_ino
        (slack block off rec_len) (length name) file_type name

  split_last-eq :
      (block : List ℕ) (off rec_len : ℕ)
      → rec_len < 2 ^ 16
      → entry_size (le_at block (off + 6) 1) ≤ rec_len
      → le_at block (off + 4) 2 ≡ rec_len
      → split_last block off child_ino file_type name ≡ (
          if leb (entry_size (length name)) (slack block off rec_len)
          then some (split block off rec_len)
          else none)
  unfolding split_last slack split
  split_last-eq block off rec_len small size e =
      let actual = entry_size (le_at block (off + 6) 1) in
      let z = entry_size_lem (length name) in
      let e2 : (rec_len + (2 ^ 64 - actual)) % 2 ^ 64 ≡ rec_len - actual =
        omega (arith, size, small) in
      let e3 : (rec_len - actual) % 2 ^ 16 ≡ rec_len - actual = omega (arith, small) in
      let e4 : length name % 256 ≡ length name = omega (arith, short) in
      let e5 : entry_size (length name) % 2 ^ 16 ≡ entry_size (length name) =
        omega (arith, z, short) in
      rw (e, e2, e3, e4, e5) refl

  split-Changed :
      (block : List ℕ) {off rec_len ino : ℕ} {n : Str}
      → length block < 2 ^ 16
      → Shows block off rec_len ino n
      → off + rec_len ≡ length block
      → entry_size (length name) ≤ slack block off rec_len
      → Changed block (split block off rec_len) off ((ino, n) ∷ (child_ino, name) ∷ [])
  unfolding slack split
  split-Changed block {off} {rec_len} {ino} {n} small s end enough =
      let actual = entry_size (le_at block (off + 6) 1) in
      let shrunk = put_le (off + 4) 2 actual block in
      let more = slack block off rec_len in
      let new = split block off rec_len in
      let size = s.size in
      let l1 = length-put_le (off + 4) 2 actual block in
      let l2 =
        length-write_dir_entry shrunk (off + actual) child_ino more (length name) file_type name in
      let stay =
        write_dir_entry-before shrunk (off + actual) child_ino more (length name) file_type name in
      let first =
        Shows-Agree shrunk new l2 (λ at m lo hi. stay at m (omega arith) hi)
          (shrink block small s) in
      let added =
        Shows-write_dir_entry shrunk (off + actual) child_ino more file_type name
          (omega (arith, l1, end, size)) enough short ino_ok (omega (arith, small, end)) in
      record {
        same_length = l2 ∙ l1;
        before = λ at m lo hi.
            stay at m lo (omega (arith, hi))
            ∙ unfold put_le in
              slice-splice_before at m (off + 4) (to_le 2 actual) block (omega (arith, hi));
        holds = next first (last added (omega (arith, l1, l2, end, size)));
      }

  split_last-Changed :
      (block new : List ℕ) {off rec_len ino : ℕ} {n : Str}
      → length block < 2 ^ 16
      → Shows block off rec_len ino n
      → off + rec_len ≡ length block
      → split_last block off child_ino file_type name ≡ some new
      → Changed block new off ((ino, n) ∷ (child_ino, name) ∷ [])
  split_last-Changed block new {off} {rec_len} {ino} {n} small s end e =
      let q = split_last-eq block off rec_len (omega (arith, small, end)) s.size s.shows_len in
      let more = slack block off rec_len in
      elim (Bool-cases (leb (entry_size (length name)) more)) [
        | inl c ↦
            let g = split-Changed block small s end (ground (arith, c)) in
            let p : split block off rec_len ≡ new = some_inj (sym (if_true _ _ c) ∙ sym q ∙ e) in
            subst (λ b. Changed block b off ((ino, n) ∷ (child_ino, name) ∷ [])) p g
        | inr c ↦ absurd (none≢some (sym (sym e ∙ q ∙ if_false _ _ c)))
      ]

  insert_from-Changed :
      (fuel : ℕ) (block new : List ℕ) (off : ℕ) (l : List (ℕ × Str))
      → length block < 2 ^ 16
      → Holds block off l
      → insert_from block fuel off child_ino file_type name ≡ some new
      → Changed block new off (l ++ (child_ino, name) ∷ [])
  unfolding insert_from
  insert_from-Changed zero block new off l small h e = cc
  insert_from-Changed (suc fuel) block new off l small (last s end) e =
      let q = s.shows_len in
      let room = s.room in
      let size = s.size in
      let z = entry_size_lem (le_at block (off + 6) 1) in
      split_last-Changed block new small s end (ground (arith, q, room, size, end, z, e))
  insert_from-Changed (suc fuel) block new off l small (next {rec_len = rec_len} {l = rest} s h) e =
      let q = s.shows_len in
      let room = s.room in
      let size = s.size in
      let z = entry_size_lem (le_at block (off + 6) 1) in
      let more = Holds-room h in
      let e1 : insert_from block fuel (off + le_at block (off + 4) 2) child_ino file_type name
          ≡ some new =
        ground (arith, q, room, size, more, z, e) in
      let e2 = ap (λ k. insert_from block fuel (off + k) child_ino file_type name) (sym q) ∙ e1 in
      let g = insert_from-Changed fuel block new (off + rec_len) rest small h e2 in
      let kept = λ (at m : ℕ) (lo : off ≤ at) (hi : at + m ≤ off + rec_len).
        g.before at m (omega arith) hi in
      record {
        same_length = g.same_length;
        before = λ at m lo hi. g.before at m lo (omega (arith, hi));
        holds = next (Shows-Agree block new g.same_length kept s) g.holds;
      }

  -- When a block of fewer than 2^16 bytes holds a list of entries and the scan finds room in it for a
  -- new one, whose name has at most 255 bytes and whose inode number 32 bits, then the new block has the
  -- same length and holds the list with the new entry at its end.
  pub insert_in_block-Holds :
      (block new : List ℕ) (l : List (ℕ × Str))
      → length block < 2 ^ 16
      → Holds block 0 l
      → insert_in_block block child_ino file_type name ≡ some new
      → (length new ≡ length block) × Holds new 0 (l ++ (child_ino, name) ∷ [])
  unfolding insert_in_block
  insert_in_block-Holds block new l small h e =
      let g = insert_from-Changed (length block) block new 0 l small h e in (g.same_length, g.holds)
