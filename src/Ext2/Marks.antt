-- ===== src/Ext2/Marks.antt =====
-- What an allocation takes: `alloc_block` of fs/src/ext2/bitmap_alloc.rs.
use serix.Base.{
  ℕ, zero, suc, ◌+◌, ◌-◌, ◌*◌, ◌/◌, ◌%◌, ◌^◌, ◌≤◌, ◌<◌, ◌≡◌, ◌⊎◌, inl, inr, refl, sym, ap, ◌∙◌,
  Bool, true, false, List, Option, none, some, arith, if◌then◌else◌, ◌==◌, ◌||◌, leb, ltb, subst,
  ℕ_discrete, length, Bool-cases, Option-cases, some_inj, none≢some, set, length-set,
}
use serix.Bitmap.{find_free_bit, set_bit, is_set}
use serix.Bitmap.Search.{Answers, find_free_bit_least}
use serix.Bitmap.Write.{is_set-set_bit}
use serix.Block.{read_sectors, write_sectors, Sized, Works}
use serix.Block.Sectors.{write_sectors-outside, write_sectors-Works, read_sectors-same}
use serix.Ext2.Superblock.{
  Superblock, block_size, sectors_per_block, block_to_sector, bgdt_block, num_block_groups,
  read_block, write_block, write_free_counts,
}
use serix.Ext2.Groups.{Ext2State, group_of, write_entry, put_desc}
use serix.Ext2.Alloc.{alloc_block_from, alloc_block, take_block, store_counts}
use serix.Ext2.Counts.{write_free_counts-beside, write_free_counts-Works}
use serix.Ext2.Blocks.{SizeOk, read_block-write_same, write_block-Works, length-read_block}

-- The block bitmap of a group.
abbrev pub bitmap_of : Ext2State → ℕ → List ℕ
bitmap_of st g = read_block st.dev st.sb (group_of st.bgdt g).block_bitmap

-- The first sector of the block with the descriptor of a group.
abbrev pub desc_sector : Superblock → ℕ → ℕ
desc_sector sb g =
    block_to_sector sb (bgdt_block sb) + g * 32 / block_size sb * sectors_per_block sb

-- The block bitmap of a group lies apart from the superblock and from the group's descriptor.
abbrev pub Separate : Ext2State → ℕ → Type 0
Separate st g =
    let at = block_to_sector st.sb (group_of st.bgdt g).block_bitmap in
    let spb = sectors_per_block st.sb in
    (4 ≤ at) × ((at + spb ≤ desc_sector st.sb g) ⊎ (desc_sector st.sb g + spb ≤ at))

-- A block number and the state in which its bit is taken, in one of `n` groups from `g` on.
pub record Taken (st : Ext2State) (g n p : ℕ) (st' : Ext2State) : Type 0 where
  pub group : ℕ
  pub bit : ℕ
  pub from : g ≤ group
  pub below : group < g + n
  pub free : find_free_bit (bitmap_of st group) ≡ some bit
  pub number : p ≡ (group * st.sb.blocks_per_group + bit) % 2 ^ 32
  pub result : st' ≡ take_block st group (bitmap_of st group) bit

later :
    (st : Ext2State) (g n p : ℕ) (st' : Ext2State)
    → Taken st (g + 1) n p st'
    → Taken st g (suc n) p st'
later st g n p st' t = record {
  group = t.group;
  bit = t.bit;
  from = omega (arith, t.from);
  below = omega (arith, t.below);
  free = t.free;
  number = t.number;
  result = t.result;
}

alloc_block_from-Taken :
    (g n : ℕ) (st st' : Ext2State) (p : ℕ)
    → alloc_block_from g n st ≡ (some p, st')
    → Taken st g n p st'
unfolding alloc_block_from
alloc_block_from-Taken g zero st st' p h = absurd (none≢some (ap (λ r. r.0) h))
alloc_block_from-Taken g (suc n) st st' p h =
    let rest = λ (q : alloc_block_from (g + 1) n st ≡ (some p, st')).
      later st g n p st' (alloc_block_from-Taken (g + 1) n st st' p q) in
    elim (Bool-cases ((group_of st.bgdt g).free_blocks == 0)) [
      | inl c ↦ rest (rw c at h)
      | inr c ↦ elim (Option-cases (find_free_bit (bitmap_of st g))) [
        | inl q ↦ rest (rw (c, q) at h)
        | inr (bit, q) ↦
            let e : (
              some ((g * st.sb.blocks_per_group + bit) % 2 ^ 32),
              take_block st g (bitmap_of st g) bit,
            )
                ≡ (some p, st') =
              rw (c, q) at h in
            record {
              group = g;
              bit = bit;
              from = omega arith;
              below = omega arith;
              free = q;
              number = some_inj (sym (ap (λ r. r.0) e));
              result = sym (ap (λ r. r.1) e);
            }
      ]
    ]

-- After an allocation in a group, its bitmap on the disk has the new bit.
take_block-bitmap :
    (st : Ext2State) (g bit : ℕ) (bitmap : List ℕ)
    → Works st.dev
    → SizeOk st.sb
    → Separate st g
    → length bitmap ≡ block_size st.sb
    → read_block (take_block st g bitmap bit).dev st.sb (group_of st.bgdt g).block_bitmap
      ≡ set_bit bitmap bit
unfolding take_block store_counts write_entry
take_block-bitmap st g bit bitmap w z sep l =
    let bg = group_of st.bgdt g in
    let blk = bg.block_bitmap in
    let spb = sectors_per_block st.sb in
    let at = block_to_sector st.sb blk in
    let new = set_bit bitmap bit in
    let dev1 = write_block st.dev st.sb blk new in
    let w1 = write_block-Works st.dev st.sb w z blk new in
    let bgdt = set st.bgdt g (record bg { free_blocks = bg.free_blocks - 1 }) in
    let buf =
      put_desc (group_of bgdt g) (g * 32 % block_size st.sb)
        (read_sectors dev1 (desc_sector st.sb g) spb) in
    let dev2 = write_sectors dev1 (desc_sector st.sb g) spb buf in
    let w2 = write_sectors-Works dev1 (desc_sector st.sb g) spb buf w1 in
    let sb = record st.sb { free_blocks = st.sb.free_blocks - 1 } in
    let dev3 = write_free_counts sb dev2 in
    let w3 = write_free_counts-Works sb dev2 w2 in
    let kept = λ (k : ℕ) (lo : at ≤ k) (hi : k < at + spb).
      write_free_counts-beside sb dev2 k w2 (omega (arith, sep.0, lo))
      ∙ write_sectors-outside dev1 (desc_sector st.sb g) spb k buf
          (ground (arith, sep.1, lo, hi)) in
    let e : read_block dev3 st.sb blk ≡ read_block dev1 st.sb blk =
      unfold read_block in read_sectors-same dev1 dev3 at spb w1 w3 kept in
    e ∙ read_block-write_same st.dev st.sb w z blk new (unfold set_bit in length-set bitmap _ _ ∙ l)

-- Whether bit `j` of a group cannot be had: the group counts no free block, or the bit is set.
abbrev pub is_taken : Ext2State → ℕ → ℕ → Bool
is_taken st k j =
    (group_of st.bgdt k).free_blocks == 0
    || (leb (8 * length (bitmap_of st k)) j || is_set (bitmap_of st k) j)

widen :
    (g n : ℕ) (st : Ext2State) (k j : ℕ)
    → (leb (g + 1 + n) k || (ltb k (g + 1) || is_taken st k j)) ≡ true
    → (g ≡ k → is_taken st k j ≡ true)
    → (leb (g + suc n) k || (ltb k g || is_taken st k j)) ≡ true
widen g n st k j h here = elim (ℕ_discrete g k) [
  | yes e ↦ let q = here e in ground (arith, q)
  | no e ↦ ground (arith, h, e)
]

alloc_block_from-none :
    (g n : ℕ) (st st' : Ext2State) (k j : ℕ)
    → alloc_block_from g n st ≡ (none, st')
    → (st' ≡ st) × ((leb (g + n) k || (ltb k g || is_taken st k j)) ≡ true)
unfolding alloc_block_from
alloc_block_from-none g zero st st' k j h = (sym (ap (λ r. r.1) h), ground arith)
alloc_block_from-none g (suc n) st st' k j h =
    let rest = λ (q : alloc_block_from (g + 1) n st ≡ (none, st')).
      alloc_block_from-none (g + 1) n st st' k j q in
    elim (Bool-cases ((group_of st.bgdt g).free_blocks == 0)) [
      | inl c ↦
          let ih = rest (rw c at h) in
          let here = λ (e : g ≡ k). ap (λ x. (group_of st.bgdt x).free_blocks == 0) (sym e) ∙ c in
          (ih.0, widen g n st k j ih.1 (λ e. let q = here e in ground (arith, q)))
      | inr c ↦ elim (Option-cases (find_free_bit (bitmap_of st g))) [
        | inl q ↦
            let ih = rest (rw (c, q) at h) in
            let full =
              subst (Answers (bitmap_of st g) j) q (find_free_bit_least (bitmap_of st g) j) in
            let here = λ (e : g ≡ k).
              subst (λ x. (leb (8 * length (bitmap_of st x)) j || is_set (bitmap_of st x) j) ≡ true)
                e full in
            (ih.0, widen g n st k j ih.1 (λ e. let q = here e in ground (arith, q)))
        | inr (bit, q) ↦ absurd (none≢some (sym (ap (λ r. r.0) (rw (c, q) at h))))
      ]
    ]

-- What the answer of `alloc_block` says of the block bitmaps: none, that no bit of a group can be had;
-- a number, that it is that of a bit which was clear in the bitmap of its group, and that this bitmap is
-- then on the disk with that bit set and every other as before.
abbrev pub Marks : Ext2State → Option ℕ × Ext2State → Type 0
Marks st (none, st') =
    (st' ≡ st) × ((k j : ℕ) → (leb (num_block_groups st.sb) k || is_taken st k j) ≡ true)
Marks st (some p, st') =
    (g : ℕ) × (bit : ℕ) × (g < num_block_groups st.sb)
    × (bit < 8 * block_size st.sb)
    × (p ≡ (g * st.sb.blocks_per_group + bit) % 2 ^ 32)
    × (is_set (bitmap_of st g) bit ≡ false)
    × ((j : ℕ)
        → is_set (read_block st'.dev st.sb (group_of st.bgdt g).block_bitmap) j
          ≡ (if bit == j then true else is_set (bitmap_of st g) j))

marked :
    (st : Ext2State) (p : ℕ) (st' : Ext2State)
    → Works st.dev
    → Sized st.dev
    → SizeOk st.sb
    → ((g : ℕ) → g < num_block_groups st.sb → Separate st g)
    → Taken st 0 (num_block_groups st.sb) p st'
    → Marks st (some p, st')
marked st p st' w z s sep t =
    let bitmap = bitmap_of st t.group in
    let blk = (group_of st.bgdt t.group).block_bitmap in
    let l = length-read_block st.dev st.sb w s blk z in
    let a = subst (Answers bitmap 0) t.free (find_free_bit_least bitmap 0) in
    let on_disk =
      ap (λ x. read_block x.dev st.sb blk) t.result
      ∙ take_block-bitmap st t.group t.bit bitmap w s (sep t.group (omega (arith, t.below))) l in
    (
      t.group,
      t.bit,
      omega (arith, t.below),
      omega (arith, a.0, l),
      t.number,
      a.1.0,
      λ j. ap (λ b. is_set b j) on_disk ∙ is_set-set_bit bitmap t.bit j a.0,
    )

answered :
    (st : Ext2State) (r : Option ℕ × Ext2State)
    → Works st.dev
    → Sized st.dev
    → SizeOk st.sb
    → ((g : ℕ) → g < num_block_groups st.sb → Separate st g)
    → alloc_block_from 0 (num_block_groups st.sb) st ≡ r
    → Marks st r
answered st (none, st') w z s sep h =
    let all = λ (k j : ℕ). alloc_block_from-none 0 (num_block_groups st.sb) st st' k j h in
    ((all 0 0).0, λ k j. let q = (all k j).1 in ground (arith, q))
answered st (some p, st') w z s sep h =
    marked st p st' w z s sep (alloc_block_from-Taken 0 (num_block_groups st.sb) st st' p h)

-- On a device on which no transfer fails, with blocks of at most 64 KiB and block bitmaps that lie apart
-- from the superblock and the descriptors: `alloc_block` answers the number of a bit that was clear in
-- the bitmap of a group, and the bitmap on the disk then has this bit set and no other bit changed. It
-- answers none, and changes nothing, only when every group counts no free block or has every bit set.
pub alloc_block-Marks :
    (st : Ext2State)
    → Works st.dev
    → Sized st.dev
    → SizeOk st.sb
    → ((g : ℕ) → g < num_block_groups st.sb → Separate st g)
    → Marks st (alloc_block st)
unfolding alloc_block
alloc_block-Marks st w z s sep = answered st _ w z s sep refl
