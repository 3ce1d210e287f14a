-- ===== src/Base/Bytes.antt =====
-- Little-endian numbers in byte buffers, and slices beside a splice.
use Prim.Native.Nat.{ℕ, zero, suc, ◌+◌, ◌*◌, ◌/◌, ◌%◌, ◌^◌, ◌≤◌, ◌<◌}
use mathlib.Core.Path.{◌≡◌, refl, sym, ap, ◌∙◌}
use mathlib.Core.List.{List, [], ◌∷◌}
use native.Mathlib.Omega.{arith}
use native.Mathlib.Decide.{dec_le}
use mathlib.Core.Bool.{true, ◌||◌}
use serix.Base.Tests.{leb}
use serix.Base.Lists.{length, slice, splice, slice-splice, length-splice}

-- `v.to_le_bytes()` of a number of `n` bytes
unfoldable pub to_le : ℕ → ℕ → List ℕ
to_le zero v = []
to_le (suc n) v = v % 256 ∷ to_le n (v / 256)

-- `from_le_bytes`
unfoldable pub from_le : List ℕ → ℕ
from_le [] = 0
from_le (b ∷ bs) = b + 256 * from_le bs

-- The number of `n` bytes at an offset.
unfoldable pub le_at : List ℕ → ℕ → ℕ → ℕ
le_at bytes off n = from_le (slice off n bytes)

-- Its bytes, written over those at an offset.
unfoldable pub put_le : ℕ → ℕ → ℕ → List ℕ → List ℕ
put_le off n v bytes = splice off (to_le n v) bytes

pub length-to_le : (n v : ℕ) → length (to_le n v) ≡ n
unfolding to_le
length-to_le zero v = refl
length-to_le (suc n) v = ap suc (length-to_le n (v / 256))

pub from_le-to_le_two : (v : ℕ) → v < 2 ^ 16 → from_le (to_le 2 v) ≡ v
unfolding from_le to_le
from_le-to_le_two v h = omega (arith, h)

pub from_le-to_le_four : (v : ℕ) → v < 2 ^ 32 → from_le (to_le 4 v) ≡ v
unfolding from_le to_le
from_le-to_le_four v h = omega (arith, h)

module _ {ℓ} {A : Type ℓ} where
  pub slice-splice_before :
      (at n off : ℕ) (src xs : List A)
      → at + n ≤ off
      → slice at n (splice off src xs) ≡ slice at n xs
  slice-splice_before at n off src [] h = refl
  slice-splice_before at n off [] (x ∷ xs) h = refl
  slice-splice_before zero zero off (s ∷ src) (x ∷ xs) h = refl
  slice-splice_before zero (suc n) zero (s ∷ src) (x ∷ xs) h = absurd (omega arith)
  slice-splice_before zero (suc n) (suc off) (s ∷ src) (x ∷ xs) h =
      ap (◌∷◌ x) (slice-splice_before 0 n off (s ∷ src) xs (omega arith))
  slice-splice_before (suc at) n zero (s ∷ src) (x ∷ xs) h = absurd (omega arith)
  slice-splice_before (suc at) n (suc off) (s ∷ src) (x ∷ xs) h =
      slice-splice_before at n off (s ∷ src) xs (omega arith)

  pub slice-splice_after :
      (at n off : ℕ) (src xs : List A)
      → off + length src ≤ at
      → slice at n (splice off src xs) ≡ slice at n xs
  slice-splice_after at n off src [] h = refl
  slice-splice_after at n off [] (x ∷ xs) h = refl
  slice-splice_after zero n off (s ∷ src) (x ∷ xs) h = absurd (omega arith)
  slice-splice_after (suc at) n zero (s ∷ src) (x ∷ xs) h =
      slice-splice_after at n 0 src xs (omega arith)
  slice-splice_after (suc at) n (suc off) (s ∷ src) (x ∷ xs) h =
      slice-splice_after at n off (s ∷ src) xs (omega arith)

-- What was written at an offset reads back, and a number beside it is as before.
pub le_at-put_le_two :
    (off v : ℕ) (bytes : List ℕ)
    → off + 2 ≤ length bytes
    → v < 2 ^ 16
    → le_at (put_le off 2 v bytes) off 2 ≡ v
unfolding le_at put_le
le_at-put_le_two off v bytes h b =
    let l = length-to_le 2 v in
    let s = slice-splice off (to_le 2 v) bytes (omega (arith, l, h)) in
    ap (λ n. from_le (slice off n (splice off (to_le 2 v) bytes))) (sym l)
    ∙ ap from_le s
    ∙ from_le-to_le_two v b

pub le_at-put_le_four :
    (off v : ℕ) (bytes : List ℕ)
    → off + 4 ≤ length bytes
    → v < 2 ^ 32
    → le_at (put_le off 4 v bytes) off 4 ≡ v
unfolding le_at put_le
le_at-put_le_four off v bytes h b =
    let l = length-to_le 4 v in
    let s = slice-splice off (to_le 4 v) bytes (omega (arith, l, h)) in
    ap (λ n. from_le (slice off n (splice off (to_le 4 v) bytes))) (sym l)
    ∙ ap from_le s
    ∙ from_le-to_le_four v b

pub le_at-put_le_before :
    (at m off n v : ℕ) (bytes : List ℕ)
    → at + m ≤ off
    → le_at (put_le off n v bytes) at m ≡ le_at bytes at m
unfolding le_at put_le
le_at-put_le_before at m off n v bytes h =
    ap from_le (slice-splice_before at m off (to_le n v) bytes h)

pub le_at-put_le_after :
    (at m off n v : ℕ) (bytes : List ℕ)
    → off + n ≤ at
    → le_at (put_le off n v bytes) at m ≡ le_at bytes at m
unfolding le_at put_le
le_at-put_le_after at m off n v bytes h =
    let l = length-to_le n v in
    ap from_le (slice-splice_after at m off (to_le n v) bytes (omega (arith, l, h)))

-- Either of the two.
pub le_at-put_le_apart :
    (at m off n v : ℕ) (bytes : List ℕ)
    → (leb (at + m) off || leb (off + n) at) ≡ true
    → le_at (put_le off n v bytes) at m ≡ le_at bytes at m
le_at-put_le_apart at m off n v bytes h = elim (dec_le (at + m) off) [
  | yes l ↦ le_at-put_le_before at m off n v bytes l
  | no l ↦ le_at-put_le_after at m off n v bytes (ground (arith, l, h))
]

pub length-put_le : (off n v : ℕ) (bytes : List ℕ) → length (put_le off n v bytes) ≡ length bytes
unfolding put_le
length-put_le off n v bytes = length-splice off (to_le n v) bytes

pub le_at-put_le_one :
    (off v : ℕ) (bytes : List ℕ)
    → off + 1 ≤ length bytes
    → v < 256
    → le_at (put_le off 1 v bytes) off 1 ≡ v
unfolding le_at put_le to_le
le_at-put_le_one off v bytes h b =
    let s = slice-splice off (to_le 1 v) bytes (omega (arith, h)) in
    ap from_le s ∙ (unfold from_le in omega (arith, b))

-- A number of four bytes, of any value, keeps its low 32 bits.
pub le_at-put_le_wrap :
    (off v : ℕ) (bytes : List ℕ)
    → off + 4 ≤ length bytes
    → le_at (put_le off 4 v bytes) off 4 ≡ v % 2 ^ 32
unfolding le_at put_le
le_at-put_le_wrap off v bytes h =
    let l = length-to_le 4 v in
    let s = slice-splice off (to_le 4 v) bytes (omega (arith, l, h)) in
    ap (λ n. from_le (slice off n (splice off (to_le 4 v) bytes))) (sym l)
    ∙ ap from_le s
    ∙ (unfold from_le to_le in omega arith)
