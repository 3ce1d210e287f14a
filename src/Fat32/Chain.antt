-- ===== src/Fat32/Chain.antt =====
-- The chain of clusters that `cluster_chain` of fs/src/fat32/mod.rs follows.
use serix.Base.{
  ℕ, zero, suc, ◌≤◌, ◌<◌, ◌≡◌, refl, sym, ap, true, false, List, [], ◌∷◌, Option, none, some, arith,
  inl, inr, Bool-cases, subst,
}
use serix.Block.{BlockDev}
use serix.Fat32.Bpb.{Bpb}
use serix.Fat32.Fat.{not_cluster, fat_read_entry, cluster_chain}

module _ (dev : BlockDev) (bpb : Bpb) where
  -- The cluster `k` entries after one.
  abbrev pub follow : ℕ → ℕ → ℕ
  follow zero cur = cur
  follow (suc k) cur = follow k (fat_read_entry dev bpb cur)

  -- One and the `n - 1` clusters after it.
  abbrev pub trail : ℕ → ℕ → List ℕ
  trail zero cur = []
  trail (suc n) cur = cur ∷ trail n (fat_read_entry dev bpb cur)

  -- The clusters up to the first number that is none, or that all within the fuel are clusters.
  abbrev pub Follows : ℕ → ℕ → Option (List ℕ) → Type 0
  Follows fuel cur none = (k : ℕ) → k < fuel → not_cluster (follow k cur) ≡ false
  Follows fuel cur (some chain) =
      (n : ℕ) × (n ≤ fuel)
      × (chain ≡ trail n cur)
      × (not_cluster (follow n cur) ≡ true)
      × ((k : ℕ) → k < n → not_cluster (follow k cur) ≡ false)

  -- A cluster before those that are followed.
  longer :
      (n cur : ℕ)
      → not_cluster cur ≡ false
      → ((k : ℕ) → k < n → not_cluster (follow k (fat_read_entry dev bpb cur)) ≡ false)
      → (k : ℕ) → k < suc n
      → not_cluster (follow k cur) ≡ false
  longer n cur c f zero l = c
  longer n cur c f (suc k) l = f k (omega (arith, l))

  Follows-step :
      (fuel cur : ℕ) (r : Option (List ℕ))
      → not_cluster cur ≡ false
      → Follows fuel (fat_read_entry dev bpb cur) r
      → Follows (suc fuel) cur (elim r [ none ↦ none | some chain ↦ some (cur ∷ chain) ])
  Follows-step fuel cur none c f = longer fuel cur c f
  Follows-step fuel cur (some chain) c f =
      (suc f.0, omega (arith, f.1), ap (◌∷◌ cur) f.2, f.3, longer f.0 cur c f.4)

  -- With any fuel, `cluster_chain` answers the clusters from one on up to the first number that is no
  -- cluster, each the entry of the one before it, and it answers none only when as many numbers as the
  -- fuel, from the first on, are clusters.
  pub cluster_chain-Follows : (fuel cur : ℕ) → Follows fuel cur (cluster_chain dev bpb fuel cur)
  unfolding cluster_chain
  cluster_chain-Follows zero cur = λ k l. absurd (omega (arith, l))
  cluster_chain-Follows (suc fuel) cur = elim (Bool-cases (not_cluster cur)) [
    | inl c ↦
        let q : cluster_chain dev bpb (suc fuel) cur ≡ some [] = rw (cluster_chain, c) refl in
        subst (Follows (suc fuel) cur) (sym q)
          (0, omega arith, refl, c, λ k l. absurd (omega (arith, l)))
    | inr c ↦
        let next = fat_read_entry dev bpb cur in
        elim (Bool-cases (not_cluster next)) [
          | inl d ↦
              let q : cluster_chain dev bpb (suc fuel) cur ≡ some (cur ∷ []) =
                rw (cluster_chain, c, d) refl in
              subst (Follows (suc fuel) cur) (sym q)
                (1, omega arith, refl, d, longer 0 cur c (λ k l. absurd (omega (arith, l))))
          | inr d ↦
              let rest = cluster_chain dev bpb fuel next in
              let q : cluster_chain dev bpb (suc fuel) cur
                  ≡ elim rest [ none ↦ none | some chain ↦ some (cur ∷ chain) ] =
                rw (cluster_chain, c, d) refl in
              subst (Follows (suc fuel) cur) (sym q)
                (Follows-step fuel cur rest c (cluster_chain-Follows fuel next))
        ]
  ]
