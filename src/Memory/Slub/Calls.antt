-- ===== src/Memory/Slub/Calls.antt =====
-- Every sequence of allocations and frees keeps the account of blocks.
use serix.Base.{
  ℕ, zero, suc, ◌+◌, ◌*◌, ◌^◌, ◌≤◌, ◌<◌, ◌≡◌, refl, sym, ap, Bool, List, [], ◌∷◌, Option, none,
  some, arith, length, get_elem?, All, Option-cases, inl, inr, subst, some_inj,
}
use serix.Memory.Slub.{SlubAllocator, new, size_class_index, set_free, free, alloc}
use serix.Memory.Slub.Account.{Accounts, remove_at, free-Accounts}
use serix.Memory.Slub.Answer.{Answer, alloc-Answer}

pub data Call : Type 0 where
  allocate : ℕ → Call
  -- Free the block that stands at a position of the list of blocks held.
  release : ℕ → Call

pub record Client (Page : Type 0) : Type 0 where
  pub slub : SlubAllocator
  pub pages : Option Page
  pub live : List (ℕ × ℕ)

-- A new allocator, and a caller that holds nothing.
abbrev pub start : {Page : Type 0} → Option Page → Client Page
start pages = record { slub = new; pages = pages; live = [] }

abbrev took :
    {Page : Type 0} → List (ℕ × ℕ) → ℕ → Option ℕ × (SlubAllocator × Option Page) → Client Page
took live size (none, (s, pa)) = record { slub = s; pages = pa; live = live }
took live size (some p, (s, pa)) = record { slub = s; pages = pa; live = (p, size) ∷ live }

abbrev pub Classed : List (ℕ × ℕ) → Type 0
Classed live = All (λ b. (i : ℕ) × (size_class_index b.1 ≡ some i)) live

module _ {Page : Type 0} (map_new : ℕ → Page → Bool × Page) where
  unfoldable pub step : Client Page → Call → Client Page
  step c (allocate size) = took c.live size (alloc map_new size c.slub c.pages)
  step c (release k) = elim (get_elem? c.live k) [
    | none ↦ c
    | some b ↦ record { slub = free b.0 b.1 c.slub; pages = c.pages; live = remove_at k c.live }
  ]

  unfoldable pub run : Client Page → List Call → Client Page
  run c [] = c
  run c (x ∷ xs) = run (step c x) xs

abbrev pub Good : SlubAllocator → List (ℕ × ℕ) → Type 0
Good s live = ((mapped : List (ℕ × ℕ)) × Accounts s live mapped) × Classed live

remove_at-Classed : (k : ℕ) (live : List (ℕ × ℕ)) → Classed live → Classed (remove_at k live)
unfolding remove_at
remove_at-Classed k [] h = tt
remove_at-Classed zero (b ∷ live) h = h.1
remove_at-Classed (suc k) (b ∷ live) h = (h.0, remove_at-Classed k live h.1)

All-at :
    (P : ℕ × ℕ → Type 0) (live : List (ℕ × ℕ)) (k : ℕ) (b : ℕ × ℕ)
    → get_elem? live k ≡ some b
    → All P live
    → P b
All-at P [] k b e a = absurd (ground (arith, e))
All-at P (c ∷ live) zero b e a = subst P (some_inj e) a.0
All-at P (c ∷ live) (suc k) b e a = All-at P live k b e a.1

free-next : (p size : ℕ) (s : SlubAllocator) → (free p size s).next_va ≡ s.next_va
unfolding free set_free
free-next p size s = elim (Option-cases (size_class_index size)) [
  | inl n ↦ rw (free, n) refl
  | inr (i, c) ↦ rw (free, c) refl
]

module _ {Page : Type 0} (map_new : ℕ → Page → Bool × Page) where
  -- A step keeps the account and moves the end of the range by at most 1 MiB.
  abbrev Kept : Client Page → Client Page → Type 0
  Kept c d = (d.slub.next_va ≤ c.slub.next_va + 1048576) × Good d.slub d.live

  step-Kept :
      (c : Client Page) (x : Call)
      → c.slub.next_va + 1048576 < 2 ^ 64
      → Good c.slub c.live
      → Kept c (step map_new c x)
  unfolding step
  step-Kept c (allocate size) w g =
      go (alloc map_new size c.slub c.pages) refl
        (alloc-Answer map_new c.slub c.live g.0.0 size c.pages w g.0.1)
    where
      go :
          (r : Option ℕ × (SlubAllocator × Option Page))
          → alloc map_new size c.slub c.pages ≡ r
          → Answer map_new c.slub c.live size r
          → Kept c (step map_new c (allocate size))
      go (none, (t, pa)) e a =
          let q : step map_new c (allocate size) ≡ record { slub = t; pages = pa; live = c.live } =
            ap (took c.live size) e in
          subst (Kept c) (sym q)
            (omega (arith, ap (λ s. s.next_va) a), subst (λ s. Good s c.live) (sym a) g)
      go (some p, (t, pa)) e a =
          let q : step map_new c (allocate size)
              ≡ record { slub = t; pages = pa; live = (p, size) ∷ c.live } =
            ap (took c.live size) e in
          subst (Kept c) (sym q) (a.1.0, (a.1.1, (a.0, g.1)))
  step-Kept c (release k) w g = elim (Option-cases (get_elem? c.live k)) [
    | inl n ↦
        let q : step map_new c (release k) ≡ c = rw (step, n) refl in
        subst (Kept c) (sym q) (omega arith, g)
    | inr (b, e) ↦
        let d : Client Page = record {
          slub = free b.0 b.1 c.slub;
          pages = c.pages;
          live = remove_at k c.live;
        } in
        let q : step map_new c (release k) ≡ d = rw (step, e) refl in
        let i = All-at (λ b. (i : ℕ) × (size_class_index b.1 ≡ some i)) c.live k b e g.1 in
        subst (Kept c) (sym q) (
          omega (arith, free-next b.0 b.1 c.slub),
          (
            (g.0.0, free-Accounts c.slub c.live g.0.0 k b.0 b.1 i.0 e i.1 g.0.1),
            remove_at-Classed k c.live g.1,
          ),
        )
  ]

  pub run-Good :
      (cs : List Call) (c : Client Page)
      → c.slub.next_va + length cs * 1048576 < 2 ^ 64
      → Good c.slub c.live
      → Good (run map_new c cs).slub (run map_new c cs).live
  unfolding run
  run-Good [] c w g = g
  run-Good (x ∷ cs) c w g =
      let k = step-Kept c x (omega (arith, w)) g in
      run-Good cs (step map_new c x) (omega (arith, w, k.0)) k.1
