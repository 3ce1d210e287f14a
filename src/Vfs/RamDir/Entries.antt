-- ===== src/Vfs/RamDir/Entries.antt =====
-- The entries of a directory: names that stand once, lookups after an insertion and a removal.
use serix.Base.{
  ℕ, ◌≡◌, refl, sym, ◌∙◌, true, false, List, [], ◌∷◌, ◌++◌, none, some, arith, if◌then◌else◌, All,
  All-append, Bool-cases, Option-cases, inl, inr, subst, some_inj,
}
use serix.Vfs.Path.{Str, str_eq, str_eq_iff}
use serix.Vfs.RamDir.{find_child, any_child, remove_child}

-- No name stands twice.
abbrev pub Unique : List (Str × ℕ) → Type 0
Unique [] = Unit
Unique (c ∷ cs) = All (λ e. str_eq e.0 c.0 ≡ false) cs × Unique cs

str_eq_comm : (s t : Str) → str_eq s t ≡ str_eq t s
str_eq_comm s t = elim (Bool-cases (str_eq s t)) [
  | inl c ↦ let q = (str_eq_iff s t).0 c in c ∙ sym ((str_eq_iff t s).1 (sym q))
  | inr c ↦ elim (Bool-cases (str_eq t s)) [
    | inl d ↦ let q = (str_eq_iff s t).1 (sym ((str_eq_iff t s).0 d)) in q ∙ sym d
    | inr d ↦ c ∙ sym d
  ]
]

pub find_child-any :
    (name : Str) (cs : List (Str × ℕ))
    → any_child name cs ≡ elim (find_child name cs) [ none ↦ false | some n ↦ true ]
unfolding any_child find_child
find_child-any name [] = refl
find_child-any name ((n, node) ∷ cs) = ground (arith, find_child-any name cs)

pub find_child-append :
    (k name : Str) (node : ℕ) (cs : List (Str × ℕ))
    → any_child name cs ≡ false
    → find_child k (cs ++ (name, node) ∷ [])
      ≡ (if str_eq name k then some node else find_child k cs)
unfolding any_child find_child
find_child-append k name node [] h = refl
find_child-append k name node ((n, i) ∷ cs) h = ground (
  arith,
  h,
  find_child-append k name node cs,
  str_eq_iff n name,
  str_eq_iff n k,
  str_eq_iff name k,
)

pub append-Unique :
    (name : Str) (node : ℕ) (cs : List (Str × ℕ))
    → any_child name cs ≡ false
    → Unique cs
    → Unique (cs ++ (name, node) ∷ [])
unfolding any_child
append-Unique name node [] h u = (tt, tt)
append-Unique name node ((n, i) ∷ cs) h u =
    let a : str_eq n name ≡ false = ground (arith, h) in
    let b : any_child name cs ≡ false = ground (arith, h) in
    (
      All-append (λ e. str_eq e.0 n ≡ false) cs ((name, node) ∷ []) u.0
          ((str_eq_comm name n ∙ a), tt),
      append-Unique name node cs b u.1,
    )

absent-find :
    (k : Str) (cs : List (Str × ℕ)) → All (λ e. str_eq e.0 k ≡ false) cs → find_child k cs ≡ none
unfolding find_child
absent-find k [] a = refl
absent-find k (c ∷ cs) a = ground (arith, a.0, absent-find k cs a.1)

remove_child-All :
    (P : Str × ℕ → Type 0) (name : Str) (cs r : List (Str × ℕ))
    → remove_child name cs ≡ some r
    → All P cs
    → All P r
unfolding remove_child
remove_child-All P name [] r h a = absurd (ground (arith, h))
remove_child-All P name ((n, i) ∷ cs) r h a = elim (Bool-cases (str_eq n name)) [
  | inl c ↦ let g : some cs ≡ some r = rw c at h in subst (All P) (some_inj g) a.1
  | inr c ↦ elim (Option-cases (remove_child name cs)) [
    | inl z ↦ absurd (ground (arith, h, c, z))
    | inr (v, s) ↦
        let g : some ((n, i) ∷ v) ≡ some r = rw (c, s) at h in
        subst (All P) (some_inj g) (a.0, remove_child-All P name cs v s a.1)
  ]
]

absent_here :
    (name k : Str) (i : ℕ) (cs : List (Str × ℕ))
    → All (λ e. str_eq e.0 name ≡ false) cs
    → find_child k cs
      ≡ (if str_eq name k then none else (if str_eq name k then some i else find_child k cs))
absent_here name k i cs a = elim (Bool-cases (str_eq name k)) [
  | inl c ↦
      let q = (str_eq_iff name k).0 c in
      rw c (absent-find k cs (subst (λ z. All (λ e. str_eq e.0 z ≡ false) cs) q a))
  | inr c ↦ rw c refl
]

-- What an unlink leaves: the names stay unique, and only the removed one is gone.
abbrev pub Removed : Str → List (Str × ℕ) → List (Str × ℕ) → Type 0
Removed name cs r =
    Unique r × ((k : Str) → find_child k r ≡ (if str_eq name k then none else find_child k cs))

pub remove_child-Removed :
    (name : Str) (cs r : List (Str × ℕ))
    → remove_child name cs ≡ some r
    → Unique cs
    → Removed name cs r
unfolding remove_child find_child
remove_child-Removed name [] r h u = absurd (ground (arith, h))
remove_child-Removed name ((n, i) ∷ cs) r h u = elim (Bool-cases (str_eq n name)) [
  | inl c ↦
      let g : some cs ≡ some r = rw c at h in
      let q = (str_eq_iff n name).0 c in
      subst (Removed name ((n, i) ∷ cs)) (some_inj g) (
        u.1,
        λ k.
            subst
              (λ z. find_child k cs ≡ (
                if str_eq name k then none else (if str_eq z k then some i else find_child k cs)))
              (sym q)
              (absent_here name k i cs (subst (λ z. All (λ e. str_eq e.0 z ≡ false) cs) q u.0)),
      )
  | inr c ↦ elim (Option-cases (remove_child name cs)) [
    | inl z ↦ absurd (ground (arith, h, c, z))
    | inr (v, s) ↦
        let g : some ((n, i) ∷ v) ≡ some r = rw (c, s) at h in
        let ih = remove_child-Removed name cs v s u.1 in
        subst (Removed name ((n, i) ∷ cs)) (some_inj g) (
          (remove_child-All (λ e. str_eq e.0 n ≡ false) name cs v s u.0, ih.0),
          λ k. ground (arith, c, ih.1 k, str_eq_iff n name, str_eq_iff n k, str_eq_iff name k),
        )
  ]
]

-- A name that cannot be removed is not there, one that can is.
pub remove_child-none :
    (name : Str) (cs : List (Str × ℕ)) → remove_child name cs ≡ none → find_child name cs ≡ none
unfolding remove_child find_child
remove_child-none name [] h = refl
remove_child-none name ((n, i) ∷ cs) h = elim (Option-cases (remove_child name cs)) [
  | inl z ↦ ground (arith, h, z, remove_child-none name cs z)
  | inr (v, s) ↦ absurd (ground (arith, h, s))
]

pub remove_child-some :
    (name : Str) (cs r : List (Str × ℕ))
    → remove_child name cs ≡ some r
    → (n : ℕ) × (find_child name cs ≡ some n)
unfolding remove_child find_child
remove_child-some name [] r h = absurd (ground (arith, h))
remove_child-some name ((n, i) ∷ cs) r h = elim (Bool-cases (str_eq n name)) [
  | inl c ↦ (i, rw c refl)
  | inr c ↦ elim (Option-cases (remove_child name cs)) [
    | inl z ↦ absurd (ground (arith, h, c, z))
    | inr (v, s) ↦ let ih = remove_child-some name cs v s in (ih.0, rw c ih.1)
  ]
]
