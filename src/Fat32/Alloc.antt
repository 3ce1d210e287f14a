-- ===== src/Fat32/Alloc.antt =====
-- `fat_alloc_cluster` of fs/src/fat32/mod.rs takes the first free cluster.
use serix.Base.{
  ℕ, zero, suc, ◌+◌, ◌-◌, ◌≤◌, ◌<◌, ◌≡◌, ◌≢◌, refl, sym, ap, ◌∙◌, Option, none, some, arith, inl,
  inr, if◌then◌else◌, ◌==◌, Bool-cases, ==_iff, subst, dec_lt,
}
use serix.Block.{BlockDev, Sized, Works}
use serix.Fat32.Bpb.{Bpb}
use serix.Fat32.Fat.{
  fat32_eoc, fat_read_entry, fat_write_entry, max_cluster, alloc_from, fat_alloc_cluster,
}
use serix.Fat32.Entries.{InTable, fat_read_entry-fat_write_entry}

-- The first free cluster among those from `first` up to `stop`, and the device with its entry written.
abbrev Takes : BlockDev → Bpb → ℕ → ℕ → Option ℕ × BlockDev → Type 0
Takes dev bpb first stop (none, dev1) =
    (dev1 ≡ dev) × ((k : ℕ) → first ≤ k → k < stop → fat_read_entry dev bpb k ≢ 0)
Takes dev bpb first stop (some c, dev1) =
    (dev1 ≡ fat_write_entry dev bpb c fat32_eoc)
    × (first ≤ c)
    × (c < stop)
    × (fat_read_entry dev bpb c ≡ 0)
    × ((k : ℕ) → first ≤ k → k < c → fat_read_entry dev bpb k ≢ 0)

-- A cluster in use before the others changes nothing.
Takes-skip :
    (dev : BlockDev) (bpb : Bpb) (first stop : ℕ) (r : Option ℕ × BlockDev)
    → fat_read_entry dev bpb first ≢ 0
    → Takes dev bpb (first + 1) stop r
    → Takes dev bpb first stop r
Takes-skip dev bpb first stop (none, dev1) ne t = (
  t.0,
  λ k l u. elim (dec_lt first k) [
    | yes p ↦ t.1 k (omega (arith, p)) u
    | no p ↦ subst (λ i. fat_read_entry dev bpb i ≢ 0) (omega (arith, p, l)) ne
  ],
)
Takes-skip dev bpb first stop (some c, dev1) ne t = (
  t.0,
  omega (arith, t.1),
  t.2,
  t.3,
  λ k l u. elim (dec_lt first k) [
    | yes p ↦ t.4 k (omega (arith, p)) u
    | no p ↦ subst (λ i. fat_read_entry dev bpb i ≢ 0) (omega (arith, p, l)) ne
  ],
)

alloc_from-Takes :
    (n : ℕ) (dev : BlockDev) (bpb : Bpb) (cluster : ℕ)
    → Takes dev bpb cluster (cluster + n) (alloc_from dev bpb cluster n)
unfolding alloc_from
alloc_from-Takes zero dev bpb cluster = (refl, λ k l u. absurd (omega (arith, l, u)))
alloc_from-Takes (suc n) dev bpb cluster = elim (Bool-cases (fat_read_entry dev bpb cluster == 0)) [
  | inl c ↦
      let q : alloc_from dev bpb cluster (suc n)
          ≡ (some cluster, fat_write_entry dev bpb cluster fat32_eoc) =
        rw (alloc_from, c) refl in
      subst (Takes dev bpb cluster (cluster + suc n)) (sym q) (
        refl,
        omega arith,
        omega arith,
        (==_iff (fat_read_entry dev bpb cluster) 0).0 c,
        λ k l u. absurd (omega (arith, l, u)),
      )
  | inr c ↦
      let q : alloc_from dev bpb cluster (suc n) ≡ alloc_from dev bpb (cluster + 1) n =
        rw (alloc_from, c) refl in
      let e : cluster + 1 + n ≡ cluster + suc n = omega arith in
      let ne : fat_read_entry dev bpb cluster ≢ 0 = λ z. ground (arith, c, z) in
      subst (Takes dev bpb cluster (cluster + suc n)) (sym q) (
        Takes-skip dev bpb cluster (cluster + suc n) (alloc_from dev bpb (cluster + 1) n) ne (
          subst (λ t. Takes dev bpb (cluster + 1) t (alloc_from dev bpb (cluster + 1) n)) e
            (alloc_from-Takes n dev bpb (cluster + 1))))
]

-- What the allocation does to the table, seen at the entry of the cluster `other`.
abbrev pub Allocates : BlockDev → Bpb → ℕ → Option ℕ × BlockDev → Type 0
Allocates dev bpb other (none, dev1) =
    (dev1 ≡ dev) × ((k : ℕ) → 2 ≤ k → k < max_cluster bpb → fat_read_entry dev bpb k ≢ 0)
Allocates dev bpb other (some c, dev1) =
    (2 ≤ c)
    × (c < max_cluster bpb)
    × (fat_read_entry dev bpb c ≡ 0)
    × ((k : ℕ) → 2 ≤ k → k < c → fat_read_entry dev bpb k ≢ 0)
    × (fat_read_entry dev1 bpb other
        ≡ (if c == other then fat32_eoc else fat_read_entry dev bpb other))

allocated :
    (dev : BlockDev) (bpb : Bpb) (other : ℕ) (r : Option ℕ × BlockDev)
    → Works dev
    → Sized dev
    → 1 ≤ bpb.fat_count
    → InTable bpb other
    → Takes dev bpb 2 (2 + (max_cluster bpb - 2)) r
    → Allocates dev bpb other r
allocated dev bpb other (none, dev1) w z n h t = (t.0, λ k l u. t.1 k l (omega (arith, l, u)))
allocated dev bpb other (some c, dev1) w z n h t = (
  t.1,
  omega (arith, t.1, t.2),
  t.3,
  t.4,
  ap (λ d. fat_read_entry d bpb other) t.0
      ∙ fat_read_entry-fat_write_entry dev bpb c fat32_eoc other w z n h,
)

-- On a device on which no transfer fails and whose sectors have 512 bytes, with at least one table:
-- `fat_alloc_cluster` answers the least cluster from 2 on whose entry is 0, and of the clusters in the
-- first table the entry of this one is then the end mark and that of every other as before. It answers
-- none, and changes nothing, only when the entry of no cluster is 0.
pub fat_alloc_cluster-Allocates :
    (dev : BlockDev) (bpb : Bpb) (other : ℕ)
    → Works dev
    → Sized dev
    → 1 ≤ bpb.fat_count
    → InTable bpb other
    → Allocates dev bpb other (fat_alloc_cluster dev bpb)
unfolding fat_alloc_cluster
fat_alloc_cluster-Allocates dev bpb other w z n h =
    allocated dev bpb other (alloc_from dev bpb 2 (max_cluster bpb - 2)) w z n h
      (alloc_from-Takes (max_cluster bpb - 2) dev bpb 2)
