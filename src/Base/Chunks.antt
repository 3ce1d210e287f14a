-- ===== src/Base/Chunks.antt =====
-- Reading through chunks of one size: the loops that copy a range of bytes out of sectors or blocks.
use Prim.Native.Nat.{ℕ, zero, suc, ◌+◌, ◌-◌, ◌*◌, ◌/◌, ◌%◌, ◌≤◌, ◌<◌, min}
use mathlib.Core.Path.{◌≡◌, refl, sym, ap, ◌∙◌}
use mathlib.Core.Logic.{inl, inr}
use mathlib.Core.Bool.{false}
use mathlib.Core.List.{List, [], ◌∷◌, ◌++◌}
use mathlib.Core.Option.{Option, none, some}
use native.Mathlib.Omega.{arith}
use native.Mathlib.Nat.{
  mod-lt, div-add-mod, mul-add-div, div-eq_of_lt, mul-add-mod_self_left, mod-eq_of_lt,
}
use serix.Base.Tests.{if◌then◌else◌, ◌==◌, Option-cases}
use serix.Base.Lists.{length, get_or, slice}

-- The loop: `left` bytes from `pos` on, each round up to the end of a chunk of `c` bytes, and an end at
-- the first chunk that cannot be fetched. Each round takes a byte at least, so as much fuel as bytes is
-- enough.
unfoldable pub gather : ℕ → (ℕ → Option (List ℕ)) → ℕ → ℕ → ℕ → List ℕ
gather c fetch zero pos left = []
gather c fetch (suc fuel) pos left =
    let n = min (c - pos % c) left in
    let rest = gather c fetch fuel (pos + n) (left - n) in
    if left == 0
    then []
    else elim (fetch (pos / c)) [ none ↦ [] | some chunk ↦ slice (pos % c) n chunk ++ rest ]

-- The bytes one by one.
unfoldable pub bytes : ℕ → (ℕ → Option (List ℕ)) → ℕ → ℕ → List ℕ
bytes c fetch pos zero = []
bytes c fetch pos (suc n) =
    let rest = bytes c fetch (pos + 1) n in
    elim (fetch (pos / c)) [ none ↦ [] | some chunk ↦ get_or chunk (pos % c) 0 ∷ rest ]

-- Division by `c` and its remainder.
abbrev pub Divides : ℕ → Type 0
Divides c =
    (pos : ℕ)
    → (0 < c)
      × (pos % c < c)
      × (pos ≡ c * (pos / c) + pos % c)
      × ((q k : ℕ) → pos ≡ c * q + k → k < c → (pos / c ≡ q) × (pos % c ≡ k))

pub Divides-pos : (c : ℕ) → 0 < c → Divides c
Divides-pos c h pos = (
  h,
  mod-lt pos h,
  sym (div-add-mod pos c),
  (λ q k e lt. (
    ap (λ n. n / c) e ∙ mul-add-div h q k ∙ ap (λ n. q + n) (div-eq_of_lt lt) ∙ omega arith,
    ap (λ n. n % c) e ∙ mul-add-mod_self_left c q k ∙ mod-eq_of_lt lt,
  )),
)

slice-cons :
    (k m : ℕ) (xs : List ℕ)
    → k < length xs
    → slice k (suc m) xs ≡ get_or xs k 0 ∷ slice (suc k) m xs
slice-cons k m [] h = absurd (omega arith)
slice-cons zero m (x ∷ xs) h = refl
slice-cons (suc k) m (x ∷ xs) h = slice-cons k m xs (omega arith)

module _ (c : ℕ) (fetch : ℕ → Option (List ℕ)) (div : Divides c)
    (sized : (i : ℕ) (chunk : List ℕ) → fetch i ≡ some chunk → length chunk ≡ c) where
  -- The bytes of a part of one chunk, then the rest.
  bytes-chunk :
      (q k pos m r : ℕ) (chunk : List ℕ)
      → fetch q ≡ some chunk
      → pos ≡ c * q + k
      → k + m ≤ c
      → bytes c fetch pos (m + r) ≡ slice k m chunk ++ bytes c fetch (pos + m) r
  unfolding bytes
  bytes-chunk q k pos zero r chunk f e h =
      let a : 0 + r ≡ r = omega arith in
      let b : pos ≡ pos + 0 = omega arith in
      ap (bytes c fetch pos) a ∙ ap (λ p. bytes c fetch p r) b
  bytes-chunk q k pos (suc m) r chunk f e h =
      let s = sized q chunk f in
      let (d, o) = (div pos).3 q k e (omega (arith, h)) in
      let ih = bytes-chunk q (suc k) (pos + 1) m r chunk f (omega (arith, e)) (omega (arith, h)) in
      let n : suc m + r ≡ suc (m + r) = omega arith in
      let p : pos + 1 + m ≡ pos + suc m = omega arith in
      let head : bytes c fetch pos (suc (m + r))
          ≡ get_or chunk k 0 ∷ bytes c fetch (pos + 1) (m + r) =
        rw (bytes, d, f, o) refl in
      ap (bytes c fetch pos) n
      ∙ head
      ∙ ap (◌∷◌ (get_or chunk k 0)) (ih ∙ ap (λ x. slice (suc k) m chunk ++ bytes c fetch x r) p)
      ∙ ap (λ l. l ++ bytes c fetch (pos + suc m) r)
          (sym (slice-cons k m chunk (omega (arith, s, h))))

  bytes-stop : (pos n : ℕ) → fetch (pos / c) ≡ none → bytes c fetch pos n ≡ []
  unfolding bytes
  bytes-stop pos zero f = refl
  bytes-stop pos (suc n) f = rw (bytes, f) refl

  pub gather-bytes :
      (fuel pos left : ℕ) → left ≤ fuel → gather c fetch fuel pos left ≡ bytes c fetch pos left
  unfolding gather
  gather-bytes zero pos zero h = unfold bytes in refl
  gather-bytes zero pos (suc left) h = absurd (omega (arith, h))
  gather-bytes (suc fuel) pos zero h = unfold bytes in refl
  gather-bytes (suc fuel) pos (suc left) h =
      let n = min (c - pos % c) (suc left) in
      let r = suc left - n in
      let t : (suc left == 0) ≡ false = ground arith in
      let (some_, lt, split, unique) = div pos in
      let ih = gather-bytes fuel (pos + n) r (omega (arith, h, lt, some_)) in
      elim (Option-cases (fetch (pos / c))) [
        | inl f ↦ rw (t, f) (sym (bytes-stop pos (suc left) f))
        | inr (chunk, f) ↦
            let e : suc left ≡ n + r = omega arith in
            let b = bytes-chunk (pos / c) (pos % c) pos n r chunk f split (omega (arith, lt)) in
            rw (t, f, ih) (sym b ∙ ap (bytes c fetch pos) (sym e))
      ]
