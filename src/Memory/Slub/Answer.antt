-- ===== src/Memory/Slub/Answer.antt =====
-- What `alloc` answers: nothing, or a block that is accounted for.
use serix.Base.{
  ℕ, ◌+◌, ◌/◌, ◌^◌, ◌≤◌, ◌<◌, ◌≡◌, refl, sym, ap, ◌∙◌, Bool, List, [], ◌∷◌, Option, none, some,
  arith, Option-cases, Bool-cases, inl, inr, subst,
}
use serix.Memory.Slub.{
  SlubAllocator, size_class_index, set_free, bump, map_pages, map_block, alloc_class, alloc,
  cache_at,
}
use serix.Memory.Slub.Classes.{class_size, class_bounds}
use serix.Memory.Slub.Account.{Accounts, free_of, pop-Accounts, bump-Accounts}

bump_bound :
    (n : ℕ) (s : SlubAllocator)
    → n ≤ 1048576
    → s.next_va + 1048576 < 2 ^ 64
    → (bump n s).next_va ≤ s.next_va + 1048576
unfolding bump
bump_bound n s h w = omega arith

module _ {Page : Type 0} (map_new : ℕ → Page → Bool × Page) where
  -- What an allocation answers: nothing, and the allocator as it was, or a block accounted for.
  abbrev pub Answer :
      SlubAllocator → List (ℕ × ℕ) → ℕ → Option ℕ × (SlubAllocator × Option Page) → Type 0
  Answer s live size (none, (t, pa)) = t ≡ s
  Answer s live size (some p, (t, pa)) =
      ((i : ℕ) × (size_class_index size ≡ some i))
      × ((t.next_va ≤ s.next_va + 1048576)
          × ((mapped : List (ℕ × ℕ)) × Accounts t ((p, size) ∷ live) mapped))

  map_block-Answer :
      (s : SlubAllocator) (live mapped : List (ℕ × ℕ)) (size i : ℕ) (pa : Option Page)
      → size_class_index size ≡ some i
      → s.next_va + 1048576 < 2 ^ 64
      → Accounts s live mapped
      → Answer s live size (map_block map_new (class_size i) s pa)
  unfolding map_block
  map_block-Answer s live mapped size i none c w a = refl
  map_block-Answer s live mapped size i (some pa) c w a =
      let r = map_pages map_new (class_size i / 4096) s.next_va pa in
      let b = class_bounds size i c in
      elim (Bool-cases r.0) [
        | inl t ↦
            let q : map_block map_new (class_size i) s (some pa)
                ≡ (some s.next_va, (bump (class_size i) s, some r.1)) =
              rw (map_block, t) refl in
            subst (Answer s live size) (sym q) (
              (i, c),
              (
                bump_bound (class_size i) s b.1.1.1 w,
                (
                  (s.next_va, i) ∷ mapped,
                  bump-Accounts s live mapped i size c (omega (arith, w, b.1.1.1)) a,
                ),
              ),
            )
        | inr f ↦
            let q : map_block map_new (class_size i) s (some pa) ≡ (none, (s, some r.1)) =
              rw (map_block, f) refl in
            subst (Answer s live size) (sym q) refl
      ]

  pub alloc-Answer :
      (s : SlubAllocator) (live mapped : List (ℕ × ℕ)) (size : ℕ) (pa : Option Page)
      → s.next_va + 1048576 < 2 ^ 64
      → Accounts s live mapped
      → Answer s live size (alloc map_new size s pa)
  unfolding alloc alloc_class set_free
  alloc-Answer s live mapped size pa w a = elim (Option-cases (size_class_index size)) [
    | inl n ↦
        let q : alloc map_new size s pa ≡ (none, (s, pa)) = rw (alloc, n) refl in
        subst (Answer s live size) (sym q) refl
    | inr (i, c) ↦ go i c (free_of s i) refl
  ]
    where
      go :
          (i : ℕ)
          → size_class_index size ≡ some i
          → (ptrs : List ℕ) → free_of s i ≡ ptrs
          → Answer s live size (alloc map_new size s pa)
      go i c [] f =
          let b = class_bounds size i c in
          let q : alloc map_new size s pa ≡ map_block map_new (cache_at s.caches i).size s pa =
            rw (alloc, c, alloc_class, f) refl in
          let z = a.0.1 i b.0 in
          subst (Answer s live size) (sym (q ∙ ap (λ n. map_block map_new n s pa) z))
            (map_block-Answer s live mapped size i pa c w a)
      go i c (p ∷ ptrs) f =
          let q : alloc map_new size s pa ≡ (some p, (set_free i ptrs s, pa)) =
            rw (alloc, c, alloc_class, f) refl in
          subst (Answer s live size) (sym q)
            ((i, c), (omega arith, (mapped, pop-Accounts s live mapped i size p ptrs c f a)))
