-- ===== src/Ext2/Pointers.antt =====
-- The block map after `set_block`: fs/src/ext2/inode.rs, for the direct blocks and those behind the
-- single indirect block.
use serix.Base.{
  ℕ, ◌+◌, ◌-◌, ◌*◌, ◌^◌, ◌≤◌, ◌<◌, ◌≡◌, refl, sym, ap, ◌∙◌, true, false, List, arith, if◌then◌else◌,
  ◌==◌, length, get_or, set, get_or-set_self, get_or-set_ne, le_at, put_le, ℕ_discrete, dec_lt,
  le_at-put_le_four, le_at-put_le_before, le_at-put_le_after, length-put_le, lt→ltb, le→ltb,
}
use serix.Block.{Sized, Works}
use serix.Ext2.Superblock.{Superblock, block_size, read_block}
use serix.Ext2.Groups.{Ext2State}
use serix.Ext2.Inode.{Inode}
use serix.Ext2.BlockMap.{
  u32_at, write_u32_at, pointers, nonzero, follow, get_single, get_double, get_triple, get_block,
  top_block, put_pointer, write_to, set_single, set_block,
}
use serix.Ext2.Blocks.{SizeOk, sectors_lem, length-read_block, read_block-write_same}

u32_at-write_u32_at :
    (bytes : List ℕ) (i j v : ℕ)
    → i * 4 + 4 ≤ length bytes
    → v < 2 ^ 32
    → u32_at (write_u32_at bytes i v) j ≡ (if i == j then v else u32_at bytes j)
unfolding u32_at write_u32_at
u32_at-write_u32_at bytes i j v h b = elim (ℕ_discrete i j) [
  | yes e ↦
      let s = le_at-put_le_four (i * 4) v bytes h b in
      let g = ap (λ k. le_at (put_le (i * 4) 4 v bytes) (k * 4) 4) (sym e) ∙ s in
      ground (arith, g, e)
  | no n ↦ elim (dec_lt i j) [
    | yes l ↦
        let a = le_at-put_le_after (j * 4) 4 (i * 4) 4 v bytes (omega (arith, l)) in
        ground (arith, a, n)
    | no l ↦
        let a = le_at-put_le_before (j * 4) 4 (i * 4) 4 v bytes (ground (arith, l, n)) in
        ground (arith, a, n)
  ]
]

-- An indirect block has room for each of its numbers.
pointers_lem : (sb : Superblock) → SizeOk sb → pointers sb * 4 ≡ block_size sb
unfolding pointers
pointers_lem sb h = let (e, lo, hi) = sectors_lem sb h in omega (arith, e, lo, hi)

-- An inode with its 15 entries.
abbrev pub Complete : Inode → Type 0
Complete inode = length inode.block ≡ 15

module _ (st : Ext2State) (works : Works st.dev) (sized : Sized st.dev)
    (size_ok : SizeOk st.sb) where
  -- A direct entry set.
  direct :
      (inode : Inode) (n m phys : ℕ)
      → Complete inode
      → n < 12
      → get_block (record inode { block = set inode.block n phys }) st.dev st.sb m
        ≡ (if n == m then nonzero phys else get_block inode st.dev st.sb m)
  unfolding get_block get_single get_double get_triple
  direct inode n m phys l h = elim (ℕ_discrete n m) [
    | yes e ↦
        let s = get_or-set_self inode.block n phys 0 (omega (arith, l, h)) in
        let g = ap (λ k. get_or (set inode.block n phys) k 0) (sym e) ∙ s in
        let t = lt→ltb m 12 (omega (arith, e, h)) in
        let c : (n == m) ≡ true = ground (arith, e) in rw (t, g, c) refl
    | no ne ↦
        let c : (n == m) ≡ false = ground (arith, ne) in
        let g = get_or-set_ne inode.block n m phys 0 ne in
        let g12 = get_or-set_ne inode.block n 12 phys 0 (λ e. omega (arith, e, h)) in
        let g13 = get_or-set_ne inode.block n 13 phys 0 (λ e. omega (arith, e, h)) in
        let g14 = get_or-set_ne inode.block n 14 phys 0 (λ e. omega (arith, e, h)) in
        rw (c, get_single, get_double, get_triple, g, g12, g13, g14) refl
  ]

  -- The block that an indirect entry leads to, after one number of it is set.
  follow-put_pointer :
      (ib n m phys : ℕ)
      → n < pointers st.sb
      → phys < 2 ^ 32
      → follow (put_pointer st ib n phys).dev st.sb m ib
        ≡ (if n == m then nonzero phys else follow st.dev st.sb m ib)
  unfolding follow put_pointer write_to
  follow-put_pointer ib n m phys h b =
      let old = read_block st.dev st.sb ib in
      let l = length-read_block st.dev st.sb works size_ok ib sized in
      let q = pointers_lem st.sb size_ok in
      let ln : length (write_u32_at old n phys) ≡ block_size st.sb =
        unfold write_u32_at in length-put_le (n * 4) 4 phys old ∙ l in
      let back = read_block-write_same st.dev st.sb works size_ok ib (write_u32_at old n phys) ln in
      let u = u32_at-write_u32_at old n m phys (omega (arith, l, q, h)) b in
      let e = ap (λ x. u32_at x m) back ∙ u in
      elim (ℕ_discrete n m) [
        | yes eq ↦ let c : (n == m) ≡ true = ground (arith, eq) in rw (e, c) refl
        | no ne ↦ let c : (n == m) ≡ false = ground (arith, ne) in rw (e, c) refl
      ]

  -- Behind the single indirect block, when there is one.
  behind :
      (inode : Inode) (n m phys : ℕ)
      → (get_or inode.block 12 0 == 0) ≡ false
      → 12 ≤ n
      → n - 12 < pointers st.sb
      → m < 12 + pointers st.sb
      → phys < 2 ^ 32
      → get_block inode (put_pointer st (get_or inode.block 12 0) (n - 12) phys).dev st.sb m
        ≡ (if n == m then nonzero phys else get_block inode st.dev st.sb m)
  unfolding get_block get_single
  behind inode n m phys z lo h hm b =
      let f = follow-put_pointer (get_or inode.block 12 0) (n - 12) (m - 12) phys h b in
      elim (dec_lt m 12) [
        | yes l ↦
            let t = lt→ltb m 12 l in
            let c : (n == m) ≡ false = ground (arith, l, lo) in rw (t, c) refl
        | no l ↦
            let t = le→ltb m 12 (omega (arith, l)) in
            let p = lt→ltb (m - 12) (pointers st.sb) (omega (arith, l, hm)) in
            let c : (n == m) ≡ (n - 12 == m - 12) = ground (arith, l, lo) in rw (t, p, z, f, c) refl
      ]

  -- On a device on which no transfer fails, with blocks of at most 64 KiB, for an inode that has a single
  -- indirect block: after `set_block` at a direct index or one behind the single indirect block,
  -- `get_block` answers the new number at that index, none standing for 0, and at every other such index
  -- what it answered before.
  pub get_block-set_block :
      (inode : Inode) (n m phys : ℕ)
      → Complete inode
      → (get_or inode.block 12 0 == 0) ≡ false
      → n < 12 + pointers st.sb
      → m < 12 + pointers st.sb
      → phys < 2 ^ 32
      → get_block (set_block inode st n phys).0 (set_block inode st n phys).1.dev st.sb m
        ≡ (if n == m then nonzero phys else get_block inode st.dev st.sb m)
  unfolding set_block set_single top_block
  get_block-set_block inode n m phys l z hn hm b = elim (dec_lt n 12) [
    | yes d ↦ let t = lt→ltb n 12 d in rw t (direct inode n m phys l d)
    | no d ↦
        let t = le→ltb n 12 (omega (arith, d)) in
        let p = lt→ltb (n - 12) (pointers st.sb) (omega (arith, d, hn)) in
        rw (t, p, z) (behind inode n m phys z (omega (arith, d)) (omega (arith, d, hn)) hm b)
  ]
