-- ===== src/Memory/Slub/Classes.antt =====
-- The size class of a request.
use serix.Base.{
  ℕ, zero, suc, ◌≤◌, ◌<◌, ◌≡◌, refl, sym, false, List, [], ◌∷◌, Option, none, some, arith, leb,
  length, get_or, take, All, Bool-cases, inl, inr, subst,
}
use serix.Memory.Slub.{size_classes, position, size_class_index}

-- A search in a list of sizes answers the first that is large enough, or that none is.
abbrev pub Least : ℕ → List ℕ → Option ℕ → Type 0
Least size ss none = All (λ s. s < size) ss
Least size ss (some i) =
    (i < length ss) × ((size ≤ get_or ss i 0) × All (λ s. s < size) (take i ss))

position-Least : (size : ℕ) (ss : List ℕ) → Least size ss (position size ss)
unfolding position
position-Least size [] = tt
position-Least size (s ∷ ss) = go (position size ss) refl (position-Least size ss)
  where
    later :
        (o : Option ℕ)
        → position size ss ≡ o
        → Least size ss o
        → leb size s ≡ false
        → Least size (s ∷ ss) (position size (s ∷ ss))
    later none e l c =
        let q : position size (s ∷ ss) ≡ none = rw (position, c, e) refl in
        subst (Least size (s ∷ ss)) (sym q) (ground (arith, c), l)
    later (some i) e l c =
        let q : position size (s ∷ ss) ≡ some (suc i) = rw (position, c, e) refl in
        subst (Least size (s ∷ ss)) (sym q)
          (omega (arith, l.0), (l.1.0, (ground (arith, c), l.1.1)))

    go :
        (o : Option ℕ)
        → position size ss ≡ o
        → Least size ss o
        → Least size (s ∷ ss) (position size (s ∷ ss))
    go o e l = elim (Bool-cases (leb size s)) [
      | inl c ↦
          let q : position size (s ∷ ss) ≡ some 0 = rw (position, c) refl in
          subst (Least size (s ∷ ss)) (sym q) (omega arith, (ground (arith, c), tt))
      | inr c ↦ later o e l c
    ]

-- For any requested size, the class chosen is the smallest of the nine that is at least the request,
-- and there is none exactly when all nine, up to 1 MiB, are too small.
pub size_class_index-Least : (size : ℕ) → Least size size_classes (size_class_index size)
unfolding size_class_index
size_class_index-Least size = position-Least size size_classes

All-get_or : (P : ℕ → Type 0) (xs : List ℕ) (i : ℕ) → i < length xs → All P xs → P (get_or xs i 0)
All-get_or P [] i h a = absurd (omega arith)
All-get_or P (x ∷ xs) zero h a = a.0
All-get_or P (x ∷ xs) (suc i) h a = All-get_or P xs i (omega arith) a.1

abbrev pub class_size : ℕ → ℕ
class_size i = get_or size_classes i 0

-- A class that was chosen is one of the nine, holds the request, is positive and at most 1 MiB.
pub class_bounds :
    (size i : ℕ)
    → size_class_index size ≡ some i
    → (i < 9) × ((size ≤ class_size i) × ((0 < class_size i) × (class_size i ≤ 1048576)))
class_bounds size i e =
    let l = subst (Least size size_classes) e (size_class_index-Least size) in
    let a : All (λ s. 0 < s) size_classes = (
      omega arith,
      (
        omega arith,
        (
          omega arith,
          (
            omega arith,
            (omega arith, (omega arith, (omega arith, (omega arith, (omega arith, tt))))),
          ),
        ),
      ),
    ) in
    let b : All (λ s. s ≤ 1048576) size_classes = (
      omega arith,
      (
        omega arith,
        (
          omega arith,
          (
            omega arith,
            (omega arith, (omega arith, (omega arith, (omega arith, (omega arith, tt))))),
          ),
        ),
      ),
    ) in
    (
      l.0,
      (
        l.1.0,
        (
          All-get_or (λ s. 0 < s) size_classes i l.0 a,
          All-get_or (λ s. s ≤ 1048576) size_classes i l.0 b,
        ),
      ),
    )
