-- ===== src/Memory/Slub/Account.antt =====
-- Every block that was mapped is either on a free list or held by a caller, exactly once.
use serix.Base.{
  ℕ, zero, suc, ◌+◌, ◌%◌, ◌^◌, ◌≤◌, ◌<◌, ◌≡◌, ◌≢◌, refl, sym, ap, ◌∙◌, ◌&&◌, List, [], ◌∷◌, none,
  some, arith, if◌then◌else◌, ◌==◌, length, get_elem?, set, subst, some_inj, length-set,
  get_or-set_self, get_or-set_ne, ℕ_discrete,
}
use serix.Memory.Slub.{SlubCache, SlubAllocator, size_class_index, cache_at, set_free, bump, free}
use serix.Memory.Slub.Classes.{class_size, class_bounds}

-- How often a block, its address and its class, stands in a list.
unfoldable pub count : ℕ → ℕ → List (ℕ × ℕ) → ℕ
count p i [] = 0
count p i ((q, j) ∷ bs) = (if q == p && j == i then 1 else 0) + count p i bs

unfoldable pub occ : ℕ → List ℕ → ℕ
occ p [] = 0
occ p (q ∷ qs) = (if q == p then 1 else 0) + occ p qs

-- The class a request falls into; 9 is none.
unfoldable pub class_of : ℕ → ℕ
class_of size = elim (size_class_index size) [ none ↦ 9 | some i ↦ i ]

-- The blocks a caller holds: the addresses it got, each with the size it asked for.
unfoldable pub held : List (ℕ × ℕ) → List (ℕ × ℕ)
held [] = []
held ((p, size) ∷ live) = (p, class_of size) ∷ held live

unfoldable pub remove_at : ℕ → List (ℕ × ℕ) → List (ℕ × ℕ)
remove_at k [] = []
remove_at zero (b ∷ bs) = bs
remove_at (suc k) (b ∷ bs) = b ∷ remove_at k bs

abbrev pub free_of : SlubAllocator → ℕ → List ℕ
free_of s i = (cache_at s.caches i).free_list

-- The mapped blocks, last first, each below what was mapped after it.
abbrev pub Stacked : List (ℕ × ℕ) → ℕ → Type 0
Stacked [] next = Unit
Stacked ((p, i) ∷ bs) next = (p + class_size i ≤ next) × ((0 < class_size i) × Stacked bs p)

abbrev pub Sized : SlubAllocator → Type 0
Sized s = (length s.caches ≡ 9) × ((i : ℕ) → i < 9 → (cache_at s.caches i).size ≡ class_size i)

-- `mapped` accounts for the allocator's free blocks and the blocks held.
abbrev pub Accounts : SlubAllocator → List (ℕ × ℕ) → List (ℕ × ℕ) → Type 0
Accounts s live mapped =
    Sized s
    × (Stacked mapped s.next_va
        × ((p i : ℕ) → i < 9 → count p i (held live) + occ p (free_of s i) ≡ count p i mapped))

cache_at-set_here :
    (cs : List SlubCache) (i : ℕ) (c : SlubCache) → i < length cs → cache_at (set cs i c) i ≡ c
cache_at-set_here cs i c h = get_or-set_self cs i c _ h

cache_at-set_ne :
    (cs : List SlubCache) (i j : ℕ) (c : SlubCache)
    → i ≢ j
    → cache_at (set cs i c) j ≡ cache_at cs j
cache_at-set_ne cs i j c h = get_or-set_ne cs i j c _ h

-- Replacing one free list keeps the sizes and the other lists.
set_free_lem :
    (i : ℕ) (ptrs : List ℕ) (s : SlubAllocator)
    → i < 9
    → Sized s
    → Sized (set_free i ptrs s)
      × ((free_of (set_free i ptrs s) i ≡ ptrs)
          × ((j : ℕ) → i ≢ j → free_of (set_free i ptrs s) j ≡ free_of s j))
unfolding set_free
set_free_lem i ptrs s h z =
    let c : SlubCache = record { size = (cache_at s.caches i).size; free_list = ptrs } in
    let here = cache_at-set_here s.caches i c (omega (arith, z.0)) in
    (
      (
        length-set s.caches i c ∙ z.0,
        λ j l. elim (ℕ_discrete i j) [
          | yes e ↦
              subst (λ k. (cache_at (set s.caches i c) k).size ≡ class_size k) e
                (ap (λ d. d.size) here ∙ z.1 i h)
          | no n ↦ ap (λ d. d.size) (cache_at-set_ne s.caches i j c n) ∙ z.1 j l
        ],
      ),
      (ap (λ d. d.free_list) here, λ j n. ap (λ d. d.free_list) (cache_at-set_ne s.caches i j c n)),
    )

abbrev pub hit : ℕ → ℕ → ℕ → ℕ → ℕ
hit p i q j = if p == q && i == j then 1 else 0

-- A block that leaves one free list.
moved :
    (p i q j : ℕ) (ptrs : List ℕ) (F G : ℕ → List ℕ)
    → F i ≡ p ∷ ptrs
    → G i ≡ ptrs
    → ((k : ℕ) → i ≢ k → G k ≡ F k)
    → hit p i q j + occ q (G j) ≡ occ q (F j)
unfolding occ
moved p i q j ptrs F G f g o = elim (ℕ_discrete i j) [
  | yes e ↦
      let f' : F j ≡ p ∷ ptrs = ap F (sym e) ∙ f in
      let g' : G j ≡ ptrs = ap G (sym e) ∙ g in rw (f', g') (ground (arith, e))
  | no n ↦ let o' = o j n in rw o' (ground (arith, n))
]

pub class_of-some : (size i : ℕ) → size_class_index size ≡ some i → class_of size ≡ i
unfolding class_of
class_of-some size i c = rw (class_of, c) refl

pub held_cons :
    (p size i q j : ℕ) (live : List (ℕ × ℕ))
    → size_class_index size ≡ some i
    → count q j (held ((p, size) ∷ live)) ≡ hit p i q j + count q j (held live)
unfolding held count
held_cons p size i q j live c =
    ap (λ k. hit p k q j + count q j (held live)) (class_of-some size i c)

-- Taking a block off a free list, and putting one back.
pub pop-Accounts :
    (s : SlubAllocator) (live mapped : List (ℕ × ℕ)) (i size p : ℕ) (ptrs : List ℕ)
    → size_class_index size ≡ some i
    → free_of s i ≡ p ∷ ptrs
    → Accounts s live mapped
    → Accounts (set_free i ptrs s) ((p, size) ∷ live) mapped
unfolding set_free
pop-Accounts s live mapped i size p ptrs c f a =
    let b = class_bounds size i c in
    let l = set_free_lem i ptrs s b.0 a.0 in
    (
      l.0,
      (
        a.1.0,
        λ q j h.
            let m = moved p i q j ptrs (free_of s) (free_of (set_free i ptrs s)) f l.1.0 l.1.1 in
            omega (arith, held_cons p size i q j live c, m, a.1.1 q j h),
      ),
    )

push-Accounts :
    (s : SlubAllocator) (live live' mapped : List (ℕ × ℕ)) (i size p : ℕ)
    → size_class_index size ≡ some i
    → ((q j : ℕ) → count q j (held live) ≡ count q j (held ((p, size) ∷ live')))
    → Accounts s live mapped
    → Accounts (set_free i (p ∷ free_of s i) s) live' mapped
unfolding set_free
push-Accounts s live live' mapped i size p c k a =
    let b = class_bounds size i c in
    let t = set_free i (p ∷ free_of s i) s in
    let l = set_free_lem i (p ∷ free_of s i) s b.0 a.0 in
    (
      l.0,
      (
        a.1.0,
        λ q j h.
            let m =
              moved p i q j (free_of s i) (free_of t) (free_of s) l.1.0 refl
                (λ n e. sym (l.1.1 n e)) in
            omega (arith, held_cons p size i q j live' c, m, k q j, a.1.1 q j h),
      ),
    )

-- A new block above all others, where the address does not wrap around.
pub bump-Accounts :
    (s : SlubAllocator) (live mapped : List (ℕ × ℕ)) (i size : ℕ)
    → size_class_index size ≡ some i
    → s.next_va + class_size i < 2 ^ 64
    → Accounts s live mapped
    → Accounts (bump (class_size i) s) ((s.next_va, size) ∷ live) ((s.next_va, i) ∷ mapped)
unfolding bump count
bump-Accounts s live mapped i size c w a =
    let b = class_bounds size i c in
    let n : (s.next_va + class_size i) % 2 ^ 64 ≡ s.next_va + class_size i = omega (arith, w) in
    (
      a.0,
      (
        (omega (arith, n), (b.1.1.0, a.1.0)),
        λ q j h. omega (arith, held_cons s.next_va size i q j live c, a.1.1 q j h),
      ),
    )

-- Removing a held block from the list leaves the others' counts.
remove_at-count :
    (k : ℕ) (live : List (ℕ × ℕ)) (b : ℕ × ℕ) (q j : ℕ)
    → get_elem? live k ≡ some b
    → count q j (held live) ≡ count q j (held (b ∷ remove_at k live))
unfolding remove_at held count
remove_at-count k [] b q j e = absurd (ground (arith, e))
remove_at-count zero (c ∷ live) b q j e = ap (λ x. count q j (held (x ∷ live))) (some_inj e)
remove_at-count (suc k) ((p, size) ∷ live) b q j e =
    let ih = remove_at-count k live b q j e in omega (arith, ih)

pub free-Accounts :
    (s : SlubAllocator) (live mapped : List (ℕ × ℕ)) (k p size i : ℕ)
    → get_elem? live k ≡ some (p, size)
    → size_class_index size ≡ some i
    → Accounts s live mapped
    → Accounts (free p size s) (remove_at k live) mapped
unfolding free set_free
free-Accounts s live mapped k p size i e c a =
    let q : free p size s ≡ set_free i (p ∷ free_of s i) s = rw (free, c) refl in
    subst (λ t. Accounts t (remove_at k live) mapped) (sym q)
      (push-Accounts s live (remove_at k live) mapped i size p c
        (λ q j. remove_at-count k live (p, size) q j e) a)
