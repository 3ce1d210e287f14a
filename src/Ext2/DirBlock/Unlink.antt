-- ===== src/Ext2/DirBlock/Unlink.antt =====
-- An entry taken out of a directory block: `remove_in_block`, the work of `remove_entry` on a block.
use serix.Base.{
  ℕ, zero, suc, ◌+◌, ◌^◌, ◌≤◌, ◌<◌, ◌≡◌, ◌≢◌, refl, sym, ap, ◌∙◌, subst, List, [], ◌∷◌, Option,
  none, some, arith, inl, inr, length, le_at, put_le, Bool-cases, slice, to_le, length-to_le,
  some_inj, none≢some, Option-cases, slice-splice_after, length-put_le,
}
use serix.Vfs.Path.{Str}
use serix.Ext2.Dir.{entry_at, walk, for_each_entry, has_name}
use serix.Ext2.DirEdit.{remove_closure, unlink_entry, remove_in_block}
use serix.Ext2.DirBlock.{Shows, Holds, last, next, find}
use serix.Ext2.DirBlock.Insert.{Changed, Shows-Agree, entry_size_lem}
use serix.Ext2.DirBlock.Walk.{walk-end}
use serix.Ext2.DirBlock.Remove.{Holds-Agree, free_first, absorb}
use serix.Ext2.DirBlock.Search.{
  remove_first, forget, after, search-hit, search-miss, find-nil, unfound, sought,
}

-- The change for what a search found.
abbrev unlink_found : List ℕ → ℕ × Option ℕ × ℕ → List ℕ
unlink_found block (cur, prev, rec_len) = unlink_entry block cur prev rec_len

module _ (block : List ℕ) (small : length block < 2 ^ 16) where
  -- The entry after the one at `off` goes: it is the last of the block, or others follow it.
  absorbed_last :
      {off n ino m other : ℕ} {name₁ name₂ : Str}
      → Shows block off n ino name₁
      → Shows block (off + n) m other name₂
      → off + n + m ≡ length block
      → Changed block (unlink_entry block (off + n) (some off) m) off ((ino, name₁) ∷ [])
  absorbed_last s s' e =
      let (l, below, above, shows) = absorb block small s s' in
      record {
        same_length = l;
        before = λ at k lo hi. below at k lo (omega (arith, hi));
        holds = last shows (omega (arith, e, l));
      }

  absorbed_next :
      {off n ino m other : ℕ} {name₁ name₂ : Str} {l : List (ℕ × Str)}
      → Shows block off n ino name₁
      → Shows block (off + n) m other name₂
      → Holds block (off + n + m) l
      → Changed block (unlink_entry block (off + n) (some off) m) off ((ino, name₁) ∷ l)
  absorbed_next {off} {n} {m = m} {l = rest} s s' h =
      let (l, below, above, shows) = absorb block small s s' in
      let new = unlink_entry block (off + n) (some off) m in
      let tail = Holds-Agree block new (off + n + m) l above (omega arith) h in
      let e : off + n + m ≡ off + (n + m) = omega arith in
      record {
        same_length = l;
        before = λ at k lo hi. below at k lo (omega (arith, hi));
        holds = next shows (subst (λ k. Holds new k rest) e tail);
      }

module _ (name : Str) (block : List ℕ) (small : length block < 2 ^ 16) where
  -- A change after an entry, seen from the entry.
  kept_before :
      {off n ino : ℕ} {name₁ : Str} {new : List ℕ} {l : List (ℕ × Str)}
      → Shows block off n ino name₁
      → Changed block new (off + n) l
      → Changed block new off ((ino, name₁) ∷ l)
  kept_before {off} {n} {new = new} s g =
      let kept =
        λ (at m : ℕ) (lo : off ≤ at) (hi : at + m ≤ off + n). g.before at m (omega arith) hi in
      record {
        same_length = g.same_length;
        before = λ at m lo hi. g.before at m lo (omega (arith, hi));
        holds = next (Shows-Agree block new g.same_length kept s) g.holds;
      }

  found_last :
      (fuel : ℕ) {off n ino m other : ℕ} {name₁ name₂ : Str} (t : ℕ × Option ℕ × ℕ)
      → Shows block off n ino name₁
      → Shows block (off + n) m other name₂
      → off + n + m ≡ length block
      → (walk (remove_closure name) block (suc fuel) (off + n) (after off)).found ≡ some t
      → Changed block
          (unlink_found block t)
          off
          ((ino, name₁) ∷ remove_first name ((other, name₂) ∷ []))
  found_last fuel {off} {n} {ino} {m} {name₁ = name₁} t s s' e h =
      elim (Bool-cases (has_name name (entry_at block (off + n)))) [
        | inl c ↦
            let hit = search-hit name block fuel (some off) [] s' c in
            let g = absorbed_last block small s s' e in
            let q = some_inj (sym hit.0 ∙ h) in
            subst (λ l. Changed block (unlink_found block t) off ((ino, name₁) ∷ l)) (sym hit.1)
              (subst (λ u. Changed block (unlink_found block u) off ((ino, name₁) ∷ [])) q g)
        | inr c ↦
            let miss = search-miss name block fuel (some off) [] s' c in
            let stop =
              walk-end (remove_closure name) block fuel (off + n + m) (after (off + n))
                (omega (arith, e)) in
            absurd (none≢some (sym (ap (λ r. r.found) stop) ∙ sym miss.0 ∙ h))
      ]

  removed_after :
      (fuel : ℕ) {off n ino : ℕ} {name₁ : Str} (l : List (ℕ × Str)) (t : ℕ × Option ℕ × ℕ)
      → Shows block off n ino name₁
      → Holds block (off + n) l
      → length block ≤ off + n + fuel
      → (walk (remove_closure name) block fuel (off + n) (after off)).found ≡ some t
      → Changed block (unlink_found block t) off ((ino, name₁) ∷ remove_first name l)
  removed_after zero l t s (last s' e) le h = absurd (omega (arith, s'.room, le))
  removed_after zero l t s (next s' k) le h = absurd (omega (arith, s'.room, le))
  removed_after (suc fuel) l t s (last s' e) le h = found_last fuel t s s' e h
  removed_after (suc fuel) {off} {n} {ino} {name₁} l t s
        (next {rec_len = m} {ino = other} {name = name₂} {l = rest} s' k) le h =
      let z = entry_size_lem (le_at block (off + n + 6) 1) in
      let ih =
        removed_after fuel {off = (off + n)} {n = m} {ino = other} {name₁ = name₂} rest t s' k
          (omega (arith, le, z, s'.size)) in
      elim (Bool-cases (has_name name (entry_at block (off + n)))) [
        | inl c ↦
            let hit = search-hit name block fuel (some off) rest s' c in
            let g = absorbed_next block small s s' k in
            let q = some_inj (sym hit.0 ∙ h) in
            subst (λ l. Changed block (unlink_found block t) off ((ino, name₁) ∷ l)) (sym hit.1)
              (subst (λ u. Changed block (unlink_found block u) off ((ino, name₁) ∷ rest)) q g)
        | inr c ↦
            let miss = search-miss name block fuel (some off) rest s' c in
            subst (λ l. Changed block (unlink_found block t) off ((ino, name₁) ∷ l)) (sym miss.1)
              (kept_before s (ih (sym miss.0 ∙ h)))
      ]

  freed :
      {n ino : ℕ} {name₁ : Str}
      → Shows block 0 n ino name₁
      → 0 + n ≡ length block
      → Holds (put_le 0 4 0 block) 0 ((0, name₁) ∷ [])
  freed s e = last (free_first block s) (omega (arith, e, length-put_le 0 4 0 block))

  after_head : (at m : ℕ) → 4 ≤ at → slice at m (put_le 0 4 0 block) ≡ slice at m block
  unfolding put_le
  after_head at m h =
      let lt = length-to_le 4 0 in
      slice-splice_after at m 0 (to_le 4 0) block (omega (arith, lt, h))

  freed_next :
      {n ino : ℕ} {name₁ : Str} {l : List (ℕ × Str)}
      → Shows block 0 n ino name₁
      → Holds block (0 + n) l
      → Holds (put_le 0 4 0 block) 0 ((0, name₁) ∷ l)
  freed_next {n} s k =
      let z = entry_size_lem (le_at block 6 1) in
      let above = λ (at m : ℕ) (lo : n ≤ at) (hi : at + m ≤ length block).
        after_head at m (omega (arith, lo, z, s.size)) in
      next (free_first block s)
        (Holds-Agree block (put_le 0 4 0 block) n (length-put_le 0 4 0 block) above (omega arith) k)

  -- What the whole search finds, and what the block holds then.
  Outcome : List (ℕ × Str) → Option (ℕ × Option ℕ × ℕ) → Type 0
  Outcome l none = find name l ≡ none
  Outcome l (some t) =
      (length (unlink_found block t) ≡ length block)
      × Holds (unlink_found block t) 0 (forget name l)

  searched :
      (fuel : ℕ) (l : List (ℕ × Str))
      → length block ≤ fuel
      → Holds block 0 l
      → Outcome l
          (walk (remove_closure name) block fuel 0 (record { found = none; prev = none })).found
  unfolding Outcome unlink_entry
  searched zero l le (last s e) = absurd (omega (arith, s.room, le))
  searched zero l le (next s k) = absurd (omega (arith, s.room, le))
  searched (suc fuel) l le (last {rec_len = n} s e) =
      elim (Bool-cases (has_name name (entry_at block 0))) [
        | inl c ↦
            let hit = search-hit name block fuel none [] s c in
            subst (Outcome l) (sym hit.0) (
              length-put_le 0 4 0 block,
              subst (Holds (put_le 0 4 0 block) 0) (sym hit.3) (freed s e),
            )
        | inr c ↦
            let miss = search-miss name block fuel none [] s c in
            let stop =
              walk-end (remove_closure name) block fuel (0 + n) (after 0) (omega (arith, e)) in
            subst (Outcome l) (sym (miss.0 ∙ ap (λ r. r.found) stop)) (miss.2 ∙ find-nil name block)
      ]
  searched (suc fuel) l le (next {rec_len = n} {l = rest} s k) =
      let z = entry_size_lem (le_at block 6 1) in
      let le' : length block ≤ 0 + n + fuel = omega (arith, le, z, s.size) in
      elim (Bool-cases (has_name name (entry_at block 0))) [
        | inl c ↦
            let hit = search-hit name block fuel none rest s c in
            subst (Outcome l) (sym hit.0) (
              length-put_le 0 4 0 block,
              subst (Holds (put_le 0 4 0 block) 0) (sym hit.3) (freed_next s k),
            )
        | inr c ↦
            let miss = search-miss name block fuel none rest s c in
            elim (Option-cases (walk (remove_closure name) block fuel (0 + n) (after 0)).found) [
              | inl q ↦
                  subst (Outcome l) (sym (miss.0 ∙ q))
                    (miss.2 ∙ unfound name block fuel 0 rest k le' q)
              | inr (t, q) ↦
                  let g = removed_after fuel rest t s k le' q in
                  subst (Outcome l) (sym (miss.0 ∙ q))
                    (g.same_length, subst (Holds (unlink_found block t) 0) (sym miss.3) g.holds)
            ]
      ]

  -- What a removal answers.
  abbrev pub Removes : List (ℕ × Str) → Option (List ℕ) → Type 0
  Removes l none = find name l ≡ none
  Removes l (some new) =
      (find name l ≢ none) × (length new ≡ length block) × Holds new 0 (forget name l)

  Outcome-Removes :
      (l : List (ℕ × Str)) (o : Option (ℕ × Option ℕ × ℕ))
      → Outcome l o
      → ((t : ℕ × Option ℕ × ℕ) → o ≡ some t → find name l ≢ none)
      → Removes l (elim o [
        | none ↦ none
        | some (cur, prev, rec_len) ↦ some (unlink_entry block cur prev rec_len)
      ])
  unfolding Outcome
  Outcome-Removes l none h k = h
  Outcome-Removes l (some t) h k = (k t refl, h.0, h.1)

  -- In a block of fewer than 2^16 bytes that holds a list of entries, a removal answers none exactly
  -- when no live entry of the list has the name; otherwise it answers a block of the same length that holds the list
  -- without the first such entry, or with that entry marked free where it is the first of the block.
  pub remove_in_block-Removes :
      (l : List (ℕ × Str)) → Holds block 0 l → Removes l (remove_in_block name block)
  unfolding remove_in_block for_each_entry
  remove_in_block-Removes l h =
      Outcome-Removes l _ (searched (length block) l (omega arith) h)
        (λ t q. sought name block (length block) none l t h (omega arith) q)
