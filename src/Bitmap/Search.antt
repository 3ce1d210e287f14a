-- ===== src/Bitmap/Search.antt =====
-- `find_free_bit` finds the first bit that is clear.
use serix.Base.{
  ℕ, zero, suc, ◌+◌, ◌-◌, ◌*◌, ◌/◌, ◌%◌, ◌≤◌, ◌<◌, ◌≡◌, refl, sym, ap, ◌∙◌, true, false, ◌||◌, List,
  [], ◌∷◌, Option, none, some, arith, ◌==◌, leb, length, get_or, subst, dec_lt, Bool-cases,
  Option-cases, inl, inr,
}
use serix.Bitmap.{bit, find_in_byte, find_from, find_free_bit, is_set}

-- The first clear bit of a byte among those from `k` up to `top`, if there is one.
abbrev First : ℕ → ℕ → ℕ → Option ℕ → Type 0
First byte k top none = (j : ℕ) → k ≤ j → j < top → bit j byte ≡ true
First byte k top (some r) =
    (k ≤ r) × ((r < top) × ((bit r byte ≡ false) × ((j : ℕ) → k ≤ j → j < r → bit j byte ≡ true)))

First-skip :
    (byte k top : ℕ) (o : Option ℕ)
    → bit k byte ≡ true
    → First byte (k + 1) top o
    → First byte k top o
First-skip byte k top none b f = λ j l u. elim (dec_lt k j) [
  | yes p ↦ f j (omega arith) u
  | no p ↦ subst (λ i. bit i byte ≡ true) (omega arith) b
]
First-skip byte k top (some r) b f = (
  omega (arith, f.0),
  (
    f.1.0,
    (
      f.1.1.0,
      λ j l u. elim (dec_lt k j) [
        | yes p ↦ f.1.1.1 j (omega arith) u
        | no p ↦ subst (λ i. bit i byte ≡ true) (omega arith) b
      ],
    ),
  ),
)

find_in_byte-First : (byte k n : ℕ) → First byte k (k + n) (find_in_byte byte k n)
unfolding find_in_byte
find_in_byte-First byte k zero = λ j l u. absurd (omega arith)
find_in_byte-First byte k (suc n) = elim (Bool-cases (bit k byte)) [
  | inl c ↦
      let q : find_in_byte byte k (suc n) ≡ find_in_byte byte (k + 1) n =
        rw (find_in_byte, c) refl in
      let e : k + 1 + n ≡ k + suc n = omega arith in
      let f =
        subst (λ t. First byte (k + 1) t (find_in_byte byte (k + 1) n)) e
          (find_in_byte-First byte (k + 1) n) in
      subst (First byte k (k + suc n)) (sym q)
        (First-skip byte k (k + suc n) (find_in_byte byte (k + 1) n) c f)
  | inr c ↦
      let q : find_in_byte byte k (suc n) ≡ some k = rw (find_in_byte, c) refl in
      subst (First byte k (k + suc n)) (sym q)
        (omega arith, (omega arith, (c, λ j l u. absurd (omega arith))))
]

bit-full : (j : ℕ) → j < 8 → bit j 255 ≡ true
unfolding bit
bit-full zero h = refl
bit-full (suc zero) h = refl
bit-full (suc (suc zero)) h = refl
bit-full (suc (suc (suc zero))) h = refl
bit-full (suc (suc (suc (suc zero)))) h = refl
bit-full (suc (suc (suc (suc (suc zero))))) h = refl
bit-full (suc (suc (suc (suc (suc (suc zero)))))) h = refl
bit-full (suc (suc (suc (suc (suc (suc (suc zero))))))) h = refl
bit-full (suc (suc (suc (suc (suc (suc (suc (suc j)))))))) h = absurd (omega arith)

is_set-head : (byte : ℕ) (bytes : List ℕ) (j : ℕ) → j < 8 → is_set (byte ∷ bytes) j ≡ bit j byte
unfolding is_set
is_set-head byte bytes j h =
    let d : j / 8 ≡ 0 = omega arith in
    let m : j % 8 ≡ j = omega arith in
    ap (λ i. bit (j % 8) (get_or (byte ∷ bytes) i 0)) d ∙ ap (λ i. bit i byte) m

is_set-tail : (byte : ℕ) (bytes : List ℕ) (j : ℕ) → is_set (byte ∷ bytes) (j + 8) ≡ is_set bytes j
unfolding is_set
is_set-tail byte bytes j =
    let d : (j + 8) / 8 ≡ suc (j / 8) = omega arith in
    let m : (j + 8) % 8 ≡ j % 8 = omega arith in
    ap (λ i. bit ((j + 8) % 8) (get_or (byte ∷ bytes) i 0)) d
    ∙ ap (λ i. bit i (get_or bytes (j / 8) 0)) m

-- The first clear bit of a list of bytes that starts at byte `i` of the bitmap.
abbrev Found : ℕ → List ℕ → Option ℕ → Type 0
Found i bytes none = (j : ℕ) → j < 8 * length bytes → is_set bytes j ≡ true
Found i bytes (some r) =
    (s : ℕ) × ((r ≡ i * 8 + s)
      × ((s < 8 * length bytes)
          × ((is_set bytes s ≡ false) × ((j : ℕ) → j < s → is_set bytes j ≡ true))))

Found-skip :
    (i byte : ℕ) (bytes : List ℕ) (o : Option ℕ)
    → ((j : ℕ) → j < 8 → bit j byte ≡ true)
    → Found (i + 1) bytes o
    → Found i (byte ∷ bytes) o
Found-skip i byte bytes none b f = λ j u. elim (dec_lt j 8) [
  | yes p ↦ is_set-head byte bytes j p ∙ b j p
  | no p ↦
      let e : (j - 8) + 8 ≡ j = omega arith in
      subst (λ k. is_set (byte ∷ bytes) k ≡ true) e
        (is_set-tail byte bytes (j - 8) ∙ f (j - 8) (omega arith))
]
Found-skip i byte bytes (some r) b (s, (e, (l, (c, f)))) = (
  s + 8,
  (
    omega (arith, e),
    (
      omega (arith, l),
      (
        is_set-tail byte bytes s ∙ c,
        λ j u. elim (dec_lt j 8) [
          | yes p ↦ is_set-head byte bytes j p ∙ b j p
          | no p ↦
              let q : (j - 8) + 8 ≡ j = omega arith in
              subst (λ k. is_set (byte ∷ bytes) k ≡ true) q
                (is_set-tail byte bytes (j - 8) ∙ f (j - 8) (omega arith))
        ],
      ),
    ),
  ),
)

find_from-Found : (i : ℕ) (bytes : List ℕ) → Found i bytes (find_from i bytes)
unfolding find_from
find_from-Found i [] = λ j u. absurd (omega arith)
find_from-Found i (byte ∷ bytes) = elim (Bool-cases (byte == 255)) [
  | inl c ↦
      let full : byte ≡ 255 = ground (arith, c) in
      let q : find_from i (byte ∷ bytes) ≡ find_from (i + 1) bytes = rw (find_from, c) refl in
      let b : (j : ℕ) → j < 8 → bit j byte ≡ true =
        λ j h. subst (λ x. bit j x ≡ true) (sym full) (bit-full j h) in
      subst (Found i (byte ∷ bytes)) (sym q)
        (Found-skip i byte bytes (find_from (i + 1) bytes) b (find_from-Found (i + 1) bytes))
  | inr c ↦ elim (Option-cases (find_in_byte byte 0 8)) [
    | inl n ↦
        let q : find_from i (byte ∷ bytes) ≡ find_from (i + 1) bytes = rw (find_from, c, n) refl in
        let f = subst (First byte 0 8) n (find_in_byte-First byte 0 8) in
        subst (Found i (byte ∷ bytes)) (sym q) (
          Found-skip i byte bytes (find_from (i + 1) bytes) (λ j h. f j (omega arith) h)
            (find_from-Found (i + 1) bytes))
    | inr (k, n) ↦
        let q : find_from i (byte ∷ bytes) ≡ some (i * 8 + k) = rw (find_from, c, n) refl in
        let f = subst (First byte 0 8) n (find_in_byte-First byte 0 8) in
        subst (Found i (byte ∷ bytes)) (sym q) (
          k,
          (
            refl,
            (
              omega (arith, f.1.0),
              (
                is_set-head byte bytes k f.1.0 ∙ f.1.1.0,
                λ j u.
                    is_set-head byte bytes j (omega (arith, u, f.1.0)) ∙ f.1.1.1 j (omega arith) u,
              ),
            ),
          ),
        )
  ]
]

-- What a search answers about a bit j: nothing, and j is set or past the end; or a clear bit of the
-- bitmap, and j is set or not below it.
abbrev pub Answers : List ℕ → ℕ → Option ℕ → Type 0
Answers bitmap j none = (leb (8 * length bitmap) j || is_set bitmap j) ≡ true
Answers bitmap j (some r) =
    (r < 8 * length bitmap) × ((is_set bitmap r ≡ false) × ((leb r j || is_set bitmap j) ≡ true))

Found-Answers : (bitmap : List ℕ) (j : ℕ) (o : Option ℕ) → Found 0 bitmap o → Answers bitmap j o
Found-Answers bitmap j none f = elim (dec_lt j (8 * length bitmap)) [
  | yes p ↦ let t = f j p in ground (arith, t)
  | no p ↦ ground (arith, p)
]
Found-Answers bitmap j (some r) (s, (e, (l, (c, f)))) =
    let q : s ≡ r = omega (arith, e) in
    (
      omega (arith, l, q),
      (
        ap (is_set bitmap) (sym q) ∙ c,
        elim (dec_lt j s) [
          | yes p ↦ let t = f j p in ground (arith, t)
          | no p ↦ ground (arith, p, q)
        ],
      ),
    )

-- For any bitmap, `find_free_bit` answers none only when every bit of it is set, and otherwise a bit of
-- the bitmap that is clear, below which every bit j is set.
pub find_free_bit_least : (bitmap : List ℕ) (j : ℕ) → Answers bitmap j (find_free_bit bitmap)
unfolding find_free_bit
find_free_bit_least bitmap j =
    Found-Answers bitmap j (find_from 0 bitmap) (find_from-Found 0 bitmap)
