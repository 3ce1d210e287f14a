-- ===== src/Memory/Slub/Apart.antt =====
-- The blocks that callers hold at one time do not overlap.
use serix.Base.{
  ℕ, zero, suc, ◌+◌, ◌≤◌, ◌<◌, ◌≡◌, ◌⊎◌, refl, ap, Bool, true, ◌||◌, ◌&&◌, ◌==◌, map, get_or, List,
  [], ◌∷◌, Option, arith, leb, length, All, Bool-cases, inl, inr,
}
use serix.Memory.Slub.{new, new_cache, size_classes, cache_at}
use serix.Memory.Slub.Classes.{class_size, class_bounds}
use serix.Memory.Slub.Account.{Accounts, Stacked, count, occ, held}
use serix.Memory.Slub.Account.{hit, held_cons}
use serix.Memory.Slub.Calls.{Call, start, Classed, run, run-Good}

-- Two requests' bytes do not overlap.
abbrev pub apart : ℕ × ℕ → ℕ × ℕ → Bool
apart (p, s) (q, t) = leb (p + s) q || leb (q + t) p

abbrev pub Apart : List (ℕ × ℕ) → Type 0
Apart [] = Unit
Apart (b ∷ live) = All (λ c. apart b c ≡ true) live × Apart live

below :
    (p i : ℕ) (m : List (ℕ × ℕ)) (next : ℕ)
    → Stacked m next
    → 1 ≤ count p i m
    → p + class_size i ≤ next
unfolding count
below p i [] next h k = absurd (omega arith)
below p i ((q, j) ∷ m) next h k = elim (Bool-cases (q == p && j == i)) [
  | inl c ↦
      let e : class_size j ≡ class_size i = ap class_size (ground (arith, c)) in
      ground (arith, c, h.0, e)
  | inr c ↦ let ih = below p i m q h.1.1 (ground (arith, c, k)) in omega (arith, ih, h.0)
]

mapped_disjoint :
    (p i q j : ℕ) (m : List (ℕ × ℕ)) (next : ℕ)
    → Stacked m next
    → 1 ≤ count p i m
    → hit p i q j + 1 ≤ count q j m
    → (p + class_size i ≤ q) ⊎ (q + class_size j ≤ p)
unfolding count
mapped_disjoint p i q j [] next h k l = absurd (omega arith)
mapped_disjoint p i q j ((r, t) ∷ m) next h k l = elim (Bool-cases (r == p && t == i)) [
  | inl c ↦ let b = below q j m r h.1.1 (ground (arith, c, k, l)) in inr (ground (arith, b, c))
  | inr c ↦ elim (Bool-cases (r == q && t == j)) [
    | inl d ↦ let b = below p i m r h.1.1 (ground (arith, c, k)) in inl (ground (arith, b, d))
    | inr d ↦ mapped_disjoint p i q j m r h.1.1 (ground (arith, c, k)) (ground (arith, d, l))
  ]
]

disjoint_rest :
    (p s i : ℕ) (rest mapped : List (ℕ × ℕ)) (next : ℕ)
    → s ≤ class_size i
    → Stacked mapped next
    → 1 ≤ count p i mapped
    → ((q j : ℕ) → j < 9 → hit p i q j + count q j (held rest) ≤ count q j mapped)
    → Classed rest
    → All (λ c. apart (p, s) c ≡ true) rest
disjoint_rest p s i [] mapped next b h k f c = tt
disjoint_rest p s i ((q, t) ∷ rest) mapped next b h k f c =
    let j = c.0.0 in
    let d = class_bounds t j c.0.1 in
    let two : hit p i q j + 1 ≤ count q j mapped =
      ground (arith, f q j d.0, held_cons q t j q j rest c.0.1) in
    let tail : (q' j' : ℕ) → j' < 9 → hit p i q' j' + count q' j' (held rest) ≤ count q' j' mapped =
      λ q' j' l. omega (arith, f q' j' l, held_cons q t j q' j' rest c.0.1) in
    (
      elim (mapped_disjoint p i q j mapped next h k two) [
        | inl e ↦ ground (arith, e, b)
        | inr e ↦ ground (arith, e, d.1.0)
      ],
      disjoint_rest p s i rest mapped next b h k tail c.1,
    )

live-Apart :
    (live mapped : List (ℕ × ℕ)) (next : ℕ)
    → Stacked mapped next
    → ((q j : ℕ) → j < 9 → count q j (held live) ≤ count q j mapped)
    → Classed live
    → Apart live
live-Apart [] mapped next h f c = tt
live-Apart ((p, s) ∷ live) mapped next h f c =
    let i = c.0.0 in
    let d = class_bounds s i c.0.1 in
    let here : 1 ≤ count p i mapped = ground (arith, f p i d.0, held_cons p s i p i live c.0.1) in
    let all : (q j : ℕ) → j < 9 → hit p i q j + count q j (held live) ≤ count q j mapped =
      λ q j l. omega (arith, f q j l, held_cons p s i q j live c.0.1) in
    let tail : (q j : ℕ) → j < 9 → count q j (held live) ≤ count q j mapped =
      λ q j l. omega (arith, all q j l) in
    (
      disjoint_rest p s i live mapped next d.1.0 h here all c.1,
      live-Apart live mapped next h tail c.1,
    )

new_caches :
    (ss : List ℕ) (i : ℕ)
    → ((cache_at (map new_cache ss) i).size ≡ get_or ss i 0)
      × ((cache_at (map new_cache ss) i).free_list ≡ [])
unfolding new_cache
new_caches [] i = (refl, refl)
new_caches (s ∷ ss) zero = (refl, refl)
new_caches (s ∷ ss) (suc i) = new_caches ss i

new-Accounts : Accounts new [] []
unfolding new occ held count
new-Accounts = (
  (refl, λ i h. (new_caches size_classes i).0),
  (tt, λ p i h. ap (λ l. 0 + occ p l) (new_caches size_classes i).1),
)

-- From a new allocator, over any page allocator, every sequence of at most 50331647 allocations and
-- frees, in which a caller frees each block it holds at most once and with the size it asked for,
-- leaves the caller holding blocks that are pairwise disjoint: no two live blocks share a byte.
pub blocks_disjoint :
    {Page : Type 0} (map_new : ℕ → Page → Bool × Page) (pages : Option Page) (cs : List Call)
    → length cs < 50331648
    → Apart (run map_new (start pages) cs).live
unfolding new
blocks_disjoint map_new pages cs h =
    let g = run-Good map_new cs (start pages) (omega (arith, h)) (([], new-Accounts), tt) in
    let c = run map_new (start pages) cs in
    live-Apart c.live g.0.0 c.slub.next_va g.0.1.1.0 (λ q j l. omega (arith, g.0.1.1.1 q j l)) g.1
