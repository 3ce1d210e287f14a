-- ===== src/Ext2/DirBlock/Walk.antt =====
-- The walk of `for_each_entry` in fs/src/ext2/dir.rs, for any closure, and a lookup as one use of it.
use serix.Base.{
  ℕ, zero, suc, ◌+◌, ◌≤◌, ◌≡◌, refl, sym, ap, ap₂, ◌∙◌, Bool, true, false, List, [], ◌∷◌, none,
  some, arith, not, ◌&&◌, inl, inr, if◌then◌else◌, ◌==◌, length, le_at, Bool-cases,
}
use serix.Vfs.Path.{Str, str_eq}
use serix.Ext2.Dir.{
  Entry, entry_at, is_entry, walk, for_each_entry, has_name, lookup_closure, lookup_in_block,
}
use serix.Ext2.DirBlock.{Shows, Holds, last, next, find, is_live}
use serix.Ext2.DirBlock.Insert.{entry_size_lem}

-- The entries one after another from an offset on, up to the first place where there is none.
pub data Chain (block : List ℕ) : ℕ → List Entry → Type 0 where
  stop : {off : ℕ} → is_entry block off ≡ false → Chain block off []
  more :
      {off : ℕ} {es : List Entry}
      → is_entry block off ≡ true
      → Chain block (off + le_at block (off + 4) 2) es
      → Chain block off (entry_at block off ∷ es)

-- The closure on a list, until it answers false.
unfoldable pub fold_until {ℓ} : {S : Type ℓ} → (S → Entry → S × Bool) → S → List Entry → S
fold_until f s [] = s
fold_until f s (e ∷ es) =
    let step = f s e in let rest = fold_until f step.0 es in if step.1 then rest else step.0

unfoldable pub entries_from : List ℕ → ℕ → ℕ → List Entry
entries_from block zero off = []
entries_from block (suc fuel) off =
    let rest = entries_from block fuel (off + le_at block (off + 4) 2) in
    if is_entry block off then entry_at block off ∷ rest else []

abbrev pub entries : List ℕ → List Entry
entries block = entries_from block (length block) 0

is_entry-room :
    (block : List ℕ) (off : ℕ)
    → is_entry block off ≡ true
    → (off + 8 ≤ length block) × (8 ≤ le_at block (off + 4) 2)
unfolding is_entry
is_entry-room block off h = ground (arith, h)

walk-fold_until {ℓ} :
    {S : Type ℓ} (f : S → Entry → S × Bool) (block : List ℕ) (fuel off : ℕ) (s : S)
    → walk f block fuel off s ≡ fold_until f s (entries_from block fuel off)
unfolding walk fold_until entries_from
walk-fold_until f block zero off s = refl
walk-fold_until f block (suc fuel) off s =
    let ih =
      walk-fold_until f block fuel (off + le_at block (off + 4) 2) (f s (entry_at block off)).0 in
    elim (Bool-cases (is_entry block off)) [ inl c ↦ rw (c, ih) refl | inr c ↦ rw c refl ]

entries_from-Chain :
    (block : List ℕ) (fuel off : ℕ)
    → length block ≤ off + fuel
    → Chain block off (entries_from block fuel off)
unfolding entries_from
entries_from-Chain block zero off h = elim (Bool-cases (is_entry block off)) [
  | inl c ↦ let r = is_entry-room block off c in absurd (omega (arith, r, h))
  | inr c ↦ stop c
]
entries_from-Chain block (suc fuel) off h = elim (Bool-cases (is_entry block off)) [
  | inl c ↦
      let r = is_entry-room block off c in
      let ih =
        entries_from-Chain block fuel (off + le_at block (off + 4) 2) (omega (arith, r, h)) in
      rw c (more c ih)
  | inr c ↦ rw c (stop c)
]

-- For any closure and any block, the walk is the closure on the entries of the block in order, until it
-- answers false; and these are all the entries from the start of the block up to the first place where
-- there is none.
pub for_each_entry-fold {ℓ} :
    {S : Type ℓ} (f : S → Entry → S × Bool) (block : List ℕ) (s : S)
    → (for_each_entry f block s ≡ fold_until f s (entries block)) × Chain block 0 (entries block)
unfolding for_each_entry
for_each_entry-fold f block s = (
  walk-fold_until f block (length block) 0 s,
  entries_from-Chain block (length block) 0 (omega arith),
)

-- A step of the walk over an entry, and its end.
pub walk-step {ℓ} :
    {S : Type ℓ} (f : S → Entry → S × Bool) (block : List ℕ) (fuel : ℕ) {off rec_len ino : ℕ}
    {name : Str} (s : S)
    → Shows block off rec_len ino name
    → walk f block (suc fuel) off s ≡ (
        if (f s (entry_at block off)).1
        then walk f block fuel (off + rec_len) (f s (entry_at block off)).0
        else (f s (entry_at block off)).0)
unfolding walk
walk-step f block fuel {off} {rec_len} s h =
    let room = h.room in
    let size = h.size in
    let fits = h.fits in
    let q = h.shows_len in
    let z = entry_size_lem (le_at block (off + 6) 1) in
    let c : is_entry block off ≡ true = unfold is_entry in ground (arith, room, size, fits, q, z) in
    let next_off = ap (λ k. walk f block fuel (off + k) (f s (entry_at block off)).0) q in
    rw (c, next_off) refl

pub walk-end {ℓ} :
    {S : Type ℓ} (f : S → Entry → S × Bool) (block : List ℕ) (fuel off : ℕ) (s : S)
    → length block ≤ off
    → walk f block fuel off s ≡ s
unfolding walk
walk-end f block zero off s h = refl
walk-end f block (suc fuel) off s h =
    let c : is_entry block off ≡ false = unfold is_entry in ground (arith, h) in rw c refl

-- An entry has a name exactly when the list says so.
pub has_name-Shows :
    (block : List ℕ) (target : Str) {off rec_len ino : ℕ} {name : Str}
    → Shows block off rec_len ino name
    → has_name target (entry_at block off) ≡ is_live target (ino, name)
unfolding has_name entry_at
has_name-Shows block target h =
    ap₂ (λ i n. not (i == 0) && str_eq n target) h.shows_ino h.shows_name

-- A lookup's step, when the rest of the walk is known.
find-step :
    (block : List ℕ) (target : Str) (fuel : ℕ) {off rec_len ino : ℕ} {name : Str}
    (l : List (ℕ × Str))
    → Shows block off rec_len ino name
    → walk (lookup_closure target) block fuel (off + rec_len) none ≡ find target l
    → walk (lookup_closure target) block (suc fuel) off none ≡ find target ((ino, name) ∷ l)
unfolding lookup_closure find entry_at
find-step block target fuel {off} l s rest =
    let w = walk-step (lookup_closure target) block fuel none s in
    let live = has_name-Shows block target s in
    elim (Bool-cases (has_name target (entry_at block off))) [
      | inl c ↦ w ∙ rw (c, sym live ∙ c) (ap some s.shows_ino)
      | inr c ↦ w ∙ rw (c, sym live ∙ c) rest
    ]

walk-find :
    (block : List ℕ) (target : Str) (fuel off : ℕ) (l : List (ℕ × Str))
    → Holds block off l
    → length block ≤ off + fuel
    → walk (lookup_closure target) block fuel off none ≡ find target l
walk-find block target zero off l (last s e) h = absurd (omega (arith, s.room, h))
walk-find block target zero off l (next s k) h = absurd (omega (arith, s.room, h))
walk-find block target (suc fuel) off l (last {rec_len = n} s e) h =
    find-step block target fuel [] s (
      walk-end (lookup_closure target) block fuel (off + n) none (omega (arith, e))
      ∙ unfold find in refl)
walk-find block target (suc fuel) off l (next {rec_len = n} {l = rest} s k) h =
    let z = entry_size_lem (le_at block (off + 6) 1) in
    let ih = walk-find block target fuel (off + n) rest k (omega (arith, z, s.size, h)) in
    find-step block target fuel rest s ih

-- In a block that holds a list of entries, a lookup answers the inode number of the first live entry of
-- the list with the name, and none when there is no such entry.
pub lookup_in_block-Holds :
    (block : List ℕ) (l : List (ℕ × Str)) (target : Str)
    → Holds block 0 l
    → lookup_in_block target block ≡ find target l
unfolding lookup_in_block for_each_entry
lookup_in_block-Holds block l target h = walk-find block target (length block) 0 l h (omega arith)
