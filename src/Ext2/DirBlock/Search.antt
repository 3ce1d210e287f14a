-- ===== src/Ext2/DirBlock/Search.antt =====
-- The search of `remove_entry` in fs/src/ext2/dir.rs, on a block that holds a list.
use serix.Base.{
  ℕ, zero, suc, ◌+◌, ◌≤◌, ◌≡◌, ◌≢◌, refl, sym, ap, ◌∙◌, true, false, List, [], ◌∷◌, Option, none,
  some, arith, inl, inr, if◌then◌else◌, length, le_at, Bool-cases, none≢some,
}
use serix.Vfs.Path.{Str}
use serix.Ext2.Dir.{entry_at, walk, has_name}
use serix.Ext2.DirEdit.{Search, remove_closure}
use serix.Ext2.DirBlock.{Shows, Holds, last, next, is_live, find}
use serix.Ext2.DirBlock.Insert.{entry_size_lem}
use serix.Ext2.DirBlock.Walk.{walk-step, walk-end, has_name-Shows}

-- The list without the first live entry that has a name.
unfoldable pub remove_first : Str → List (ℕ × Str) → List (ℕ × Str)
remove_first name [] = []
remove_first name ((ino, n) ∷ l) =
    let rest = remove_first name l in if is_live name (ino, n) then l else (ino, n) ∷ rest

-- The same where the first entry of all stays, as a free one.
unfoldable pub forget : Str → List (ℕ × Str) → List (ℕ × Str)
forget name [] = []
forget name ((ino, n) ∷ l) =
    if is_live name (ino, n) then (0, n) ∷ l else (ino, n) ∷ remove_first name l

-- The search, with nothing found yet, after the entry at `off`.
abbrev pub after : ℕ → Search
after off = record { found = none; prev = some off }

module _ (name : Str) (block : List ℕ) where
  -- What the search answers at an entry that has the name, and at one that has not.
  pub search-hit :
      (fuel : ℕ) {off n ino : ℕ} {name₁ : Str} (prev : Option ℕ) (l : List (ℕ × Str))
      → Shows block off n ino name₁
      → has_name name (entry_at block off) ≡ true
      → ((walk
            (remove_closure name)
            block
            (suc fuel)
            off
            (record { found = none; prev = prev })).found
          ≡ some (off, prev, n))
        × (remove_first name ((ino, name₁) ∷ l) ≡ l)
        × (find name ((ino, name₁) ∷ l) ≡ some ino)
        × (forget name ((ino, name₁) ∷ l) ≡ (0, name₁) ∷ l)
  unfolding remove_closure remove_first find entry_at forget
  search-hit fuel {off} {n} prev l s c =
      let w = walk-step (remove_closure name) block fuel (record { found = none; prev = prev }) s in
      let live = sym (has_name-Shows block name s) ∙ c in
      (
        ap (λ r. r.found) w ∙ rw c (ap (λ k. some (off, prev, k)) s.shows_len),
        rw live refl,
        rw live refl,
        rw live refl,
      )

  pub search-miss :
      (fuel : ℕ) {off n ino : ℕ} {name₁ : Str} (prev : Option ℕ) (l : List (ℕ × Str))
      → Shows block off n ino name₁
      → has_name name (entry_at block off) ≡ false
      → ((walk
            (remove_closure name)
            block
            (suc fuel)
            off
            (record { found = none; prev = prev })).found
          ≡ (walk (remove_closure name) block fuel (off + n) (after off)).found)
        × (remove_first name ((ino, name₁) ∷ l) ≡ (ino, name₁) ∷ remove_first name l)
        × (find name ((ino, name₁) ∷ l) ≡ find name l)
        × (forget name ((ino, name₁) ∷ l) ≡ (ino, name₁) ∷ remove_first name l)
  unfolding remove_closure remove_first find entry_at forget
  search-miss fuel {off} {n} prev l s c =
      let w = walk-step (remove_closure name) block fuel (record { found = none; prev = prev }) s in
      let live = sym (has_name-Shows block name s) ∙ c in
      (ap (λ r. r.found) w ∙ rw c refl, rw live refl, rw live refl, rw live refl)

  pub find-nil : find name [] ≡ none
  unfolding find
  find-nil = refl

  -- A search that finds nothing.
  pub unfound :
      (fuel prev : ℕ) {off : ℕ} (l : List (ℕ × Str))
      → Holds block off l
      → length block ≤ off + fuel
      → (walk (remove_closure name) block fuel off (after prev)).found ≡ none
      → find name l ≡ none
  unfound zero prev l (last s e) le q = absurd (omega (arith, s.room, le))
  unfound zero prev l (next s k) le q = absurd (omega (arith, s.room, le))
  unfound (suc fuel) prev {off} l (last s e) le q =
      elim (Bool-cases (has_name name (entry_at block off))) [
        | inl c ↦ absurd (none≢some (sym q ∙ (search-hit fuel (some prev) [] s c).0))
        | inr c ↦ (search-miss fuel (some prev) [] s c).2 ∙ find-nil
      ]
  unfound (suc fuel) prev {off} l (next {rec_len = n} {l = rest} s k) le q =
      let z = entry_size_lem (le_at block (off + 6) 1) in
      let ih = unfound fuel off {off = (off + n)} rest k (omega (arith, le, z, s.size)) in
      elim (Bool-cases (has_name name (entry_at block off))) [
        | inl c ↦ absurd (none≢some (sym q ∙ (search-hit fuel (some prev) rest s c).0))
        | inr c ↦ let miss = search-miss fuel (some prev) rest s c in miss.2 ∙ ih (sym miss.0 ∙ q)
      ]

  -- A search that finds something.
  pub sought :
      (fuel : ℕ) (prev : Option ℕ) {off : ℕ} (l : List (ℕ × Str)) (t : ℕ × Option ℕ × ℕ)
      → Holds block off l
      → length block ≤ off + fuel
      → (walk (remove_closure name) block fuel off (record { found = none; prev = prev })).found
        ≡ some t
      → find name l ≢ none
  sought zero prev l t (last s e) le q = absurd (omega (arith, s.room, le))
  sought zero prev l t (next s k) le q = absurd (omega (arith, s.room, le))
  sought (suc fuel) prev {off} l t (last {rec_len = n} s e) le q =
      elim (Bool-cases (has_name name (entry_at block off))) [
        | inl c ↦ λ z. none≢some (sym z ∙ (search-hit fuel prev [] s c).2)
        | inr c ↦
            let stop =
              walk-end (remove_closure name) block fuel (off + n) (after off) (omega (arith, e)) in
            absurd
              (none≢some (sym (ap (λ r. r.found) stop) ∙ sym (search-miss fuel prev [] s c).0 ∙ q))
      ]
  sought (suc fuel) prev {off} l t (next {rec_len = n} {l = rest} s k) le q =
      let z = entry_size_lem (le_at block (off + 6) 1) in
      let ih = sought fuel (some off) {off = (off + n)} rest t k (omega (arith, le, z, s.size)) in
      elim (Bool-cases (has_name name (entry_at block off))) [
        | inl c ↦ λ z. none≢some (sym z ∙ (search-hit fuel prev rest s c).2)
        | inr c ↦
            let miss = search-miss fuel prev rest s c in λ e. ih (sym miss.0 ∙ q) (sym miss.2 ∙ e)
      ]
