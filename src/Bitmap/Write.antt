-- ===== src/Bitmap/Write.antt =====
-- Setting and clearing one bit of a bitmap.
use serix.Base.{
  ℕ, zero, suc, ◌+◌, ◌-◌, ◌*◌, ◌/◌, ◌%◌, ◌<◌, ◌≡◌, refl, sym, ap, ◌∙◌, true, false, List, [], ◌∷◌,
  arith, if◌then◌else◌, ◌==◌, length, get_or, set, get_or-set_self, get_or-set_ne, ℕ_discrete,
}
use serix.Bitmap.{bit, or_bit, and_not_bit, set_bit, clear_bit, is_set}

bit-or_bit : (k j byte : ℕ) → bit j (or_bit k byte) ≡ (if k == j then true else bit j byte)
unfolding bit or_bit
bit-or_bit zero zero byte = ground arith
bit-or_bit zero (suc j) byte =
    let e : (byte - byte % 2 + 1) / 2 ≡ byte / 2 = omega arith in
    let g = ap (bit j) e in ground (arith, g)
bit-or_bit (suc k) zero byte = ground arith
bit-or_bit (suc k) (suc j) byte =
    let e : (or_bit k (byte / 2) * 2 + byte % 2) / 2 ≡ or_bit k (byte / 2) = omega arith in
    let ih = bit-or_bit k j (byte / 2) in ap (bit j) e ∙ ground (arith, ih)

bit-and_not_bit :
    (k j byte : ℕ) → bit j (and_not_bit k byte) ≡ (if k == j then false else bit j byte)
unfolding bit and_not_bit
bit-and_not_bit zero zero byte = ground arith
bit-and_not_bit zero (suc j) byte =
    let e : (byte - byte % 2) / 2 ≡ byte / 2 = omega arith in
    let g = ap (bit j) e in ground (arith, g)
bit-and_not_bit (suc k) zero byte = ground arith
bit-and_not_bit (suc k) (suc j) byte =
    let e : (and_not_bit k (byte / 2) * 2 + byte % 2) / 2 ≡ and_not_bit k (byte / 2) =
      omega arith in
    let ih = bit-and_not_bit k j (byte / 2) in ap (bit j) e ∙ ground (arith, ih)

and_not_bit-or_bit : (k byte : ℕ) → bit k byte ≡ false → and_not_bit k (or_bit k byte) ≡ byte
unfolding bit or_bit and_not_bit
and_not_bit-or_bit zero byte h = ground (arith, h)
and_not_bit-or_bit (suc k) byte h =
    let e : (or_bit k (byte / 2) * 2 + byte % 2) / 2 ≡ or_bit k (byte / 2) = omega arith in
    let ih = ap (and_not_bit k) e ∙ and_not_bit-or_bit k (byte / 2) h in omega (arith, ih)

pub is_set-set_bit :
    (bitmap : List ℕ) (i j : ℕ)
    → i < 8 * length bitmap
    → is_set (set_bit bitmap i) j ≡ (if i == j then true else is_set bitmap j)
unfolding is_set set_bit
is_set-set_bit bitmap i j h =
    let b = or_bit (i % 8) (get_or bitmap (i / 8) 0) in
    elim (ℕ_discrete (i / 8) (j / 8)) [
      | yes e ↦
          let s = get_or-set_self bitmap (i / 8) b 0 (omega (arith, h)) in
          let g = ap (λ k. get_or (set bitmap (i / 8) b) k 0) (sym e) ∙ s in
          let same = ap (λ k. get_or bitmap k 0) e in
          let w = ap (bit (j % 8)) g ∙ bit-or_bit (i % 8) (j % 8) (get_or bitmap (i / 8) 0) in
          let v = ap (bit (j % 8)) same in ground (arith, w, v, e)
      | no n ↦
          let g = ap (bit (j % 8)) (get_or-set_ne bitmap (i / 8) (j / 8) b 0 n) in
          ground (arith, g, n)
    ]

set-set_back : (xs : List ℕ) (k x y : ℕ) → y ≡ get_or xs k 0 → set (set xs k x) k y ≡ xs
set-set_back [] k x y e = refl
set-set_back (z ∷ xs) zero x y e = ap (λ w. w ∷ xs) e
set-set_back (z ∷ xs) (suc k) x y e = ap (◌∷◌ z) (set-set_back xs k x y e)

-- For any bitmap and any bit i in it that is clear, setting i sets it and leaves every other bit j, and
-- clearing i again gives the bitmap back.
pub clear_bit-set_bit :
    (bitmap : List ℕ) (i j : ℕ)
    → i < 8 * length bitmap
    → is_set bitmap i ≡ false
    → (is_set (set_bit bitmap i) j ≡ (if i == j then true else is_set bitmap j))
      × (clear_bit (set_bit bitmap i) i ≡ bitmap)
unfolding clear_bit set_bit is_set
clear_bit-set_bit bitmap i j h c =
    let k = i / 8 in
    let old = get_or bitmap k 0 in
    let new = or_bit (i % 8) old in
    let here = get_or-set_self bitmap k new 0 (omega (arith, h)) in
    let back = ap (and_not_bit (i % 8)) here ∙ and_not_bit-or_bit (i % 8) old c in
    (unfold is_set set_bit in is_set-set_bit bitmap i j h, set-set_back bitmap k new _ back)
