-- ===== src/Memory/Slub.antt =====
-- memory/src/slub.rs: free lists of nine sizes over a range of addresses that only grows. The frame
-- allocator and the page tables, behind `PAGE_ALLOC`, are parameters.
use serix.Base.{
  ℕ, zero, suc, ◌+◌, ◌*◌, ◌/◌, ◌%◌, ◌^◌, ◌≡◌, Bool, true, false, List, [], ◌∷◌, Option, none, some,
  if◌then◌else◌, leb, get_or, set, map,
}
pub mod Classes
pub mod Account
pub mod Answer
pub mod Calls
pub mod Apart

abbrev pub slub_va_start : ℕ
slub_va_start = 18446691297151418368

abbrev pub size_classes : List ℕ
size_classes = 4096 ∷ 8192 ∷ 16384 ∷ 32768 ∷ 65536 ∷ 131072 ∷ 262144 ∷ 524288 ∷ 1048576 ∷ []

-- The end of `free_list`, where the source pushes and pops, is the head of the list.
pub record SlubCache : Type 0 where
  pub size : ℕ
  pub free_list : List ℕ

pub record SlubAllocator : Type 0 where
  pub caches : List SlubCache
  pub next_va : ℕ

unfoldable pub new_cache : ℕ → SlubCache
new_cache n = record { size = n; free_list = [] }

unfoldable pub new : SlubAllocator
unfolding new_cache
new = record { caches = map new_cache size_classes; next_va = slub_va_start }

-- `iter().position(|&s| s >= size)`
unfoldable pub position : ℕ → List ℕ → Option ℕ
position size [] = none
position size (s ∷ ss) =
    if leb size s then some 0 else elim (position size ss) [ none ↦ none | some i ↦ some (suc i) ]

unfoldable pub size_class_index : ℕ → Option ℕ
size_class_index size = position size size_classes

abbrev pub cache_at : List SlubCache → ℕ → SlubCache
cache_at cs i = get_or cs i (record { size = 0; free_list = [] })

unfoldable pub set_free : ℕ → List ℕ → SlubAllocator → SlubAllocator
set_free i ptrs s = record {
  caches = set s.caches i (record { size = (cache_at s.caches i).size; free_list = ptrs });
  next_va = s.next_va;
}

unfoldable pub bump : ℕ → SlubAllocator → SlubAllocator
bump n s = record { caches = s.caches; next_va = (s.next_va + n) % 2 ^ 64 }

unfoldable pub free : ℕ → ℕ → SlubAllocator → SlubAllocator
unfolding size_class_index set_free
free ptr size s = elim (size_class_index size) [
  | none ↦ s
  | some i ↦ set_free i (ptr ∷ (cache_at s.caches i).free_list) s
]

-- `Page` is the state of `PAGE_ALLOC`; `map_new` allocates a frame and maps it at an address, false
-- being either failure, after which the state is what the failed call left.
module _ {Page : Type 0} (map_new : ℕ → Page → Bool × Page) where
  unfoldable pub map_pages : ℕ → ℕ → Page → Bool × Page
  map_pages zero va pa = (true, pa)
  map_pages (suc n) va pa =
      let r = map_new va pa in
      let rest = map_pages n (va + 4096) r.1 in if r.0 then rest else (false, r.1)

  -- The slow path: map new pages at `next_va`. none for `PAGE_ALLOC` is that it was not set up.
  unfoldable pub map_block :
      ℕ → SlubAllocator → Option Page → Option ℕ × (SlubAllocator × Option Page)
  unfolding map_pages bump
  map_block alloc_size s none = (none, (s, none))
  map_block alloc_size s (some pa) =
      let r = map_pages (alloc_size / 4096) s.next_va pa in
      if r.0 then (some s.next_va, (bump alloc_size s, some r.1)) else (none, (s, some r.1))

  unfoldable pub alloc_class :
      ℕ → SlubAllocator → Option Page → Option ℕ × (SlubAllocator × Option Page)
  unfolding map_block set_free
  alloc_class i s pa = elim (cache_at s.caches i).free_list [
    | ptr ∷ ptrs ↦ (some ptr, (set_free i ptrs s, pa))
    | [] ↦ map_block (cache_at s.caches i).size s pa
  ]

  unfoldable pub alloc : ℕ → SlubAllocator → Option Page → Option ℕ × (SlubAllocator × Option Page)
  unfolding alloc_class size_class_index
  alloc size s pa = elim (size_class_index size) [
    | none ↦ (none, (s, pa))
    | some i ↦ alloc_class i s pa
  ]
