-- ===== src/Vfs/Mounts/Order.antt =====
-- The mount table's order: longest path first, no path twice, every path with one slash behind it.
use serix.Base.{
  ℕ, ◌≤◌, ◌≡◌, ◌≢◌, sym, List, [], ◌∷◌, ◌++◌, arith, ltb, length, All, All-append, Bool-cases, inl,
  inr,
}
use serix.Vfs.Path.{root, trim_end}
use serix.Vfs.Mounts.{MountEntry, place, sort}

module _ {I : Type 0} where
  abbrev pub Sorted : List (MountEntry I) → Type 0
  Sorted [] = Unit
  Sorted (e ∷ t) = All (λ f. length f.path ≤ length e.path) t × Sorted t

  abbrev pub Distinct : List (MountEntry I) → Type 0
  Distinct [] = Unit
  Distinct (e ∷ t) = All (λ f. f.path ≢ e.path) t × Distinct t

  abbrev pub Normal : MountEntry I → Type 0
  Normal e = e.path ≡ trim_end e.path ++ root

  abbrev pub WellFormed : List (MountEntry I) → Type 0
  WellFormed t = Sorted t × (Distinct t × All Normal t)

  -- Sorting keeps what holds of every entry.
  pub All-place :
      (P : MountEntry I → Type 0) (e : MountEntry I) (t : List (MountEntry I))
      → P e
      → All P t
      → All P (place e t)
  unfolding place
  All-place P e [] p h = (p, tt)
  All-place P e (f ∷ t) p h = elim (Bool-cases (ltb (length e.path) (length f.path))) [
    | inl c ↦ rw c (h.0, All-place P e t p h.1)
    | inr c ↦ rw c (p, h)
  ]

  pub All-sort : (P : MountEntry I → Type 0) (t : List (MountEntry I)) → All P t → All P (sort t)
  unfolding sort
  All-sort P [] h = tt
  All-sort P (e ∷ t) h = All-place P e (sort t) h.0 (All-sort P t h.1)

  All-le :
      (m n : ℕ) (t : List (MountEntry I))
      → m ≤ n
      → All (λ f. length f.path ≤ m) t
      → All (λ f. length f.path ≤ n) t
  All-le m n [] l h = tt
  All-le m n (f ∷ t) l h = (omega (arith, h.0), All-le m n t l h.1)

  place-Sorted : (e : MountEntry I) (t : List (MountEntry I)) → Sorted t → Sorted (place e t)
  unfolding place
  place-Sorted e [] h = (tt, tt)
  place-Sorted e (f ∷ t) h = elim (Bool-cases (ltb (length e.path) (length f.path))) [
    | inl c ↦
        let l : length e.path ≤ length f.path = ground (arith, c) in
        rw c (All-place (λ g. length g.path ≤ length f.path) e t l h.0, place-Sorted e t h.1)
    | inr c ↦
        let l : length f.path ≤ length e.path = ground (arith, c) in
        rw c ((l, All-le (length f.path) (length e.path) t l h.0), h)
  ]

  pub sort-Sorted : (t : List (MountEntry I)) → Sorted (sort t)
  unfolding sort
  sort-Sorted [] = tt
  sort-Sorted (e ∷ t) = place-Sorted e (sort t) (sort-Sorted t)

  place-Distinct :
      (e : MountEntry I) (t : List (MountEntry I))
      → All (λ f. f.path ≢ e.path) t
      → Distinct t
      → Distinct (place e t)
  unfolding place
  place-Distinct e [] a h = (tt, tt)
  place-Distinct e (f ∷ t) a h = elim (Bool-cases (ltb (length e.path) (length f.path))) [
    | inl c ↦
        rw c
          (All-place (λ g. g.path ≢ f.path) e t (λ q. a.0 (sym q)) h.0, place-Distinct e t a.1 h.1)
    | inr c ↦ rw c (a, h)
  ]

  pub sort-Distinct : (t : List (MountEntry I)) → Distinct t → Distinct (sort t)
  unfolding sort
  sort-Distinct [] h = tt
  sort-Distinct (e ∷ t) h =
      place-Distinct e (sort t) (All-sort (λ f. f.path ≢ e.path) t h.0) (sort-Distinct t h.1)

  pub append-Distinct :
      (t : List (MountEntry I)) (e : MountEntry I)
      → All (λ f. f.path ≢ e.path) t
      → Distinct t
      → Distinct (t ++ e ∷ [])
  append-Distinct [] e a h = (tt, tt)
  append-Distinct (f ∷ t) e a h = (
    All-append (λ g. g.path ≢ f.path) t (e ∷ []) h.0 ((λ q. a.0 (sym q)), tt),
    append-Distinct t e a.1 h.1,
  )
