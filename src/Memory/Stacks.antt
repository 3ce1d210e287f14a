-- ===== src/Memory/Stacks.antt =====
-- memory/src/kstack.rs: kernel stacks from a range of addresses that only grows. Mapping the pages of a
-- stack is a parameter, as in the SLUB allocator; one that is not set up maps no page.
use serix.Base.{
  ℕ, ◌+◌, ◌-◌, ◌/◌, ◌%◌, ◌^◌, ◌≤◌, ◌<◌, ◌≡◌, refl, sym, ap, Bool, ◌||◌, List, [], ◌∷◌, Option, none,
  some, arith, if◌then◌else◌, ◌==◌, ltb, All, Bool-cases, inl, inr, subst,
}
use serix.Memory.Slub.{map_pages}

abbrev pub kstack_va_start : ℕ
kstack_va_start = 18446656112779329536

abbrev pub kstack_va_end : ℕ
kstack_va_end = 18446691297151418368

pub record KStackAllocator : Type 0 where
  pub next_va : ℕ

abbrev pub new : KStackAllocator
new = record { next_va = kstack_va_start }

module _ {Page : Type 0} (map_new : ℕ → Page → Bool × Page) where
  -- `KStackAllocator::alloc`: the address moves only when every page was mapped.
  unfoldable pub alloc : ℕ → KStackAllocator → Page → Option ℕ × (KStackAllocator × Page)
  unfolding map_pages
  alloc size s pa =
      let base = s.next_va in
      let r = map_pages map_new (size / 4096) base pa in
      if size == 0 || ltb 0 (size % 4096)
      then (none, (s, pa))
      else if ltb kstack_va_end ((base + size) % 2 ^ 64)
      then (none, (s, pa))
      else if r.0
      then (some ((base + size) % 2 ^ 64), (record { next_va = (base + size) % 2 ^ 64 }, r.1))
      else (none, (s, r.1))

  -- `alloc_kernel_stack`: the address moves before the pages are mapped.
  unfoldable pub alloc_kernel_stack :
      ℕ → KStackAllocator → Page → Option ℕ × (KStackAllocator × Page)
  unfolding map_pages
  alloc_kernel_stack size s pa =
      let base = s.next_va in
      let r = map_pages map_new (size / 4096) base pa in
      if size == 0 || ltb 0 (size % 4096)
      then (none, (s, pa))
      else if ltb kstack_va_end ((base + size) % 2 ^ 64)
      then (none, (s, pa))
      else (
        (if r.0 then some ((base + size) % 2 ^ 64) else none),
        (record { next_va = (base + size) % 2 ^ 64 }, r.1),
      )

  -- The stacks that a sequence of requests of these sizes is given, last first: base and size.
  unfoldable pub stacks : List ℕ → KStackAllocator → Page → List (ℕ × ℕ) → List (ℕ × ℕ)
  stacks [] s pa made = made
  stacks (size ∷ sizes) s pa made =
      let r = alloc_kernel_stack size s pa in
      stacks sizes r.1.0 r.1.1 (elim r.0 [ none ↦ made | some top ↦ (top - size, size) ∷ made ])

-- Each stack is of whole pages, lies in the region, and wholly above every stack made before it.
abbrev pub Rising : List (ℕ × ℕ) → Type 0
Rising [] = Unit
Rising (b ∷ made) =
    ((b.1 % 4096 ≡ 0) × ((0 < b.1) × ((kstack_va_start ≤ b.0) × (b.0 + b.1 ≤ kstack_va_end))))
    × (All (λ c. c.0 + c.1 ≤ b.0) made × Rising made)

abbrev Below : ℕ → List (ℕ × ℕ) → Type 0
Below next made =
    ((kstack_va_start ≤ next) × (next ≤ kstack_va_end))
    × (All (λ c. c.0 + c.1 ≤ next) made × Rising made)

All-raise :
    (m n : ℕ) (made : List (ℕ × ℕ))
    → m ≤ n
    → All (λ c. c.0 + c.1 ≤ m) made
    → All (λ c. c.0 + c.1 ≤ n) made
All-raise m n [] l a = tt
All-raise m n (c ∷ made) l a = (omega (arith, l, a.0), All-raise m n made l a.1)

-- A stack from `base` to `top` on top of those below `base`.
Below-cons :
    (base size top : ℕ) (made : List (ℕ × ℕ))
    → top ≡ base + size
    → (size % 4096 ≡ 0) × (0 < size)
    → top ≤ kstack_va_end
    → Below base made
    → Below top ((top - size, size) ∷ made)
Below-cons base size top made e whole end b =
    let lo : top - size ≡ base = omega (arith, e) in
    (
      (omega (arith, e, b.0.0), end),
      (
        (omega (arith, lo, e), All-raise base top made (omega (arith, e)) b.1.0),
        (
          (whole.0, (whole.1, (omega (arith, lo, b.0.0), omega (arith, lo, e, end)))),
          (All-raise base (top - size) made (omega (arith, lo)) b.1.0, b.1.1),
        ),
      ),
    )

module _ {Page : Type 0} (map_new : ℕ → Page → Bool × Page) where
  stacks-Rising :
      (sizes : List ℕ) (s : KStackAllocator) (pa : Page) (made : List (ℕ × ℕ))
      → All (λ n. n < 2 ^ 43) sizes
      → Below s.next_va made
      → Rising (stacks map_new sizes s pa made)
  unfolding stacks alloc_kernel_stack
  stacks-Rising [] s pa made z b = b.1.1
  stacks-Rising (size ∷ sizes) s pa made z b =
      let base = s.next_va in
      let t : KStackAllocator = record { next_va = (base + size) % 2 ^ 64 } in
      let r = map_pages map_new (size / 4096) base pa in
      elim (Bool-cases (size == 0 || ltb 0 (size % 4096))) [
        | inl c ↦
            let q : alloc_kernel_stack map_new size s pa ≡ (none, (s, pa)) =
              rw (alloc_kernel_stack, c) refl in
            refused q (stacks-Rising sizes s pa made z.1 b)
        | inr c ↦ elim (Bool-cases (ltb kstack_va_end ((base + size) % 2 ^ 64))) [
          | inl d ↦
              let q : alloc_kernel_stack map_new size s pa ≡ (none, (s, pa)) =
                rw (alloc_kernel_stack, c, d) refl in
              refused q (stacks-Rising sizes s pa made z.1 b)
          | inr d ↦
              let e : (base + size) % 2 ^ 64 ≡ base + size = omega (arith, z.0, b.0) in
              let up : (kstack_va_start ≤ t.next_va) × (t.next_va ≤ kstack_va_end) =
                ground (arith, d, e, b.0.0) in
              let above = All-raise base t.next_va made (omega (arith, e)) b.1.0 in
              elim (Bool-cases r.0) [
                | inr f ↦
                    let q : alloc_kernel_stack map_new size s pa ≡ (none, (t, r.1)) =
                      rw (alloc_kernel_stack, c, d, f) refl in
                    refused q (stacks-Rising sizes t r.1 made z.1 (up, (above, b.1.1)))
                | inl f ↦
                    let q : alloc_kernel_stack map_new size s pa ≡ (some t.next_va, (t, r.1)) =
                      rw (alloc_kernel_stack, c, d, f) refl in
                    let whole : (size % 4096 ≡ 0) × (0 < size) =
                      (ground (arith, c), ground (arith, c)) in
                    given q (
                      stacks-Rising sizes t r.1 ((t.next_va - size, size) ∷ made) z.1
                        (Below-cons base size t.next_va made e whole up.1 b))
              ]
        ]
      ]
    where
      next : Option ℕ × (KStackAllocator × Page) → List (ℕ × ℕ)
      next r =
          stacks map_new sizes r.1.0 r.1.1
            (elim r.0 [ none ↦ made | some top ↦ (top - size, size) ∷ made ])

      refused :
          {u : KStackAllocator} {p : Page}
          → alloc_kernel_stack map_new size s pa ≡ (none, (u, p))
          → Rising (stacks map_new sizes u p made)
          → Rising (stacks map_new (size ∷ sizes) s pa made)
      refused q h = subst Rising (sym (ap next q)) h

      given :
          {top : ℕ} {u : KStackAllocator} {p : Page}
          → alloc_kernel_stack map_new size s pa ≡ (some top, (u, p))
          → Rising (stacks map_new sizes u p ((top - size, size) ∷ made))
          → Rising (stacks map_new (size ∷ sizes) s pa made)
      given q h = subst Rising (sym (ap next q)) h

-- From a new allocator, over any page allocator and for any sequence of requests below 8 TiB each, every
-- stack given is of one or more whole pages inside the kernel stack region, and lies wholly above every
-- stack given before it, so that no two overlap.
pub stacks_disjoint :
    {Page : Type 0} (map_new : ℕ → Page → Bool × Page) (sizes : List ℕ) (pa : Page)
    → All (λ n. n < 2 ^ 43) sizes
    → Rising (stacks map_new sizes new pa [])
stacks_disjoint map_new sizes pa z =
    stacks-Rising map_new sizes new pa [] z ((omega arith, omega arith), (tt, tt))
