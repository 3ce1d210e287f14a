-- ===== src/Virtqueue/Start.antt =====
-- The free list of a new queue.
use serix.Base.{
  ℕ, zero, suc, ◌+◌, ◌<◌, ◌≡◌, refl, sym, ap, ◌∙◌, List, [], ◌∷◌, arith, length, Absent, Distinct,
  subst, if◌then◌else◌, ltb,
}
use serix.Virtqueue.{at, init_descs, allocate}
use serix.Virtqueue.Lists.{Linked, Free}

-- The numbers from `i` on, `n` of them.
unfoldable pub range : ℕ → ℕ → List ℕ
range i zero = []
range i (suc n) = i ∷ range (i + 1) n

length-range : (i n : ℕ) → length (range i n) ≡ n
unfolding range
length-range i zero = refl
length-range i (suc n) = ap suc (length-range (i + 1) n)

range-Absent : (j i n : ℕ) → j < i → Absent j (range i n)
unfolding range
range-Absent j i zero h = tt
range-Absent j i (suc n) h =
    ((λ e. omega (arith, e, h)), range-Absent j (i + 1) n (omega (arith, h)))

range-Distinct : (i n : ℕ) → Distinct (range i n)
unfolding range
range-Distinct i zero = tt
range-Distinct i (suc n) = (range-Absent i (i + 1) n (omega arith), range-Distinct (i + 1) n)

length-init_descs : (size i n : ℕ) → length (init_descs size i n) ≡ n
unfolding init_descs
length-init_descs size i zero = refl
length-init_descs size i (suc n) = ap suc (length-init_descs size (i + 1) n)

next-init_descs :
    (size i n k : ℕ)
    → k < n
    → (at (init_descs size i n) k).next ≡ (if ltb (i + k + 1) size then i + k + 1 else 0)
unfolding init_descs
next-init_descs size i zero k h = absurd (omega (arith, h))
next-init_descs size i (suc n) zero h = let e : i + 0 + 1 ≡ i + 1 = omega arith in ground (arith, e)
next-init_descs size i (suc n) (suc k) h =
    let e : i + 1 + k + 1 ≡ i + suc k + 1 = omega arith in
    next-init_descs size (i + 1) n k (omega (arith, h)) ∙ ap (λ x. if ltb x size then x else 0) e

-- From `i` on the descriptors of a new table lead through the numbers that follow.
init_descs-Linked : (size i n : ℕ) → i + n ≡ size → Linked (init_descs size 0 size) i (range i n)
unfolding range
init_descs-Linked size i zero e = tt
init_descs-Linked size i (suc zero) e =
    (refl, (omega (arith, length-init_descs size 0 size, e), tt))
init_descs-Linked size i (suc (suc n)) e =
    let next = next-init_descs size 0 size i (omega (arith, e)) in
    let q : (at (init_descs size 0 size) i).next ≡ i + 1 = ground (arith, next, e) in
    (
      refl,
      (
        omega (arith, length-init_descs size 0 size, e),
        subst (λ h. Linked (init_descs size 0 size) h (range (i + 1) (suc n))) (sym q)
            (init_descs-Linked size (i + 1) (suc n) (omega (arith, e))),
      ),
    )

-- A new queue of any size has all its descriptors, from 0 on in their order, on its free list.
pub allocate-Free : (size : ℕ) → Free (allocate size) (range 0 size)
unfolding allocate
allocate-Free size = record {
  linked = init_descs-Linked size 0 size (omega arith);
  number = length-range 0 size;
  once = range-Distinct 0 size;
}
