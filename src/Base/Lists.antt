-- ===== src/Base/Lists.antt =====
-- Lists measured and indexed by native numbers: arrays, slices and byte buffers.
use Prim.Native.Nat.{ℕ, zero, suc, ◌+◌, ◌-◌, ◌<◌, ◌≤◌, min}
use mathlib.Core.Path.{◌≡◌, refl, sym, ap, ◌∙◌}
use mathlib.Core.Logic.{◌≢◌}
use mathlib.Core.List.{List, [], ◌∷◌, ◌++◌, map}
use mathlib.Core.Option.{Option, none, some}
use native.Mathlib.Omega.{arith}

module _ {ℓ} {A : Type ℓ} where
  abbrev pub length : List A → ℕ
  length [] = 0
  length (_ ∷ xs) = suc (length xs)

  abbrev pub get_elem? : List A → ℕ → Option A
  get_elem? [] _ = none
  get_elem? (x ∷ _) zero = some x
  get_elem? (_ ∷ xs) (suc i) = get_elem? xs i

  abbrev pub get_or : List A → ℕ → A → A
  get_or [] _ d = d
  get_or (x ∷ _) zero _ = x
  get_or (_ ∷ xs) (suc i) d = get_or xs i d

  -- A write out of bounds changes nothing.
  abbrev pub set : List A → ℕ → A → List A
  set [] _ _ = []
  set (_ ∷ xs) zero v = v ∷ xs
  set (x ∷ xs) (suc i) v = x ∷ set xs i v

  abbrev pub take : ℕ → List A → List A
  take zero _ = []
  take (suc n) [] = []
  take (suc n) (x ∷ xs) = x ∷ take n xs

  abbrev pub drop : ℕ → List A → List A
  drop zero xs = xs
  drop (suc n) [] = []
  drop (suc n) (x ∷ xs) = drop n xs

  abbrev pub replicate : ℕ → A → List A
  replicate zero a = []
  replicate (suc n) a = a ∷ replicate n a

  -- `xs[off..off + n]`
  abbrev pub slice : ℕ → ℕ → List A → List A
  slice off n xs = take n (drop off xs)

  -- `xs[off..off + src.len()].copy_from_slice(src)`
  abbrev pub splice : ℕ → List A → List A → List A
  splice off src [] = []
  splice off [] (x ∷ xs) = x ∷ xs
  splice zero (s ∷ src) (x ∷ xs) = s ∷ splice zero src xs
  splice (suc off) (s ∷ src) (x ∷ xs) = x ∷ splice off (s ∷ src) xs

  pub length-append : (xs ys : List A) → length (xs ++ ys) ≡ length xs + length ys
  length-append [] ys = omega arith
  length-append (x ∷ xs) ys = omega (arith, length-append xs ys)

  pub length-set : (xs : List A) (i : ℕ) (v : A) → length (set xs i v) ≡ length xs
  length-set [] i v = refl
  length-set (x ∷ xs) zero v = refl
  length-set (x ∷ xs) (suc i) v = ap suc (length-set xs i v)

  pub length-take : (n : ℕ) (xs : List A) → length (take n xs) ≡ min n (length xs)
  length-take zero xs = omega arith
  length-take (suc n) [] = omega arith
  length-take (suc n) (x ∷ xs) = omega (arith, length-take n xs)

  pub length-drop : (n : ℕ) (xs : List A) → length (drop n xs) ≡ length xs - n
  length-drop zero xs = omega arith
  length-drop (suc n) [] = omega arith
  length-drop (suc n) (x ∷ xs) = omega (arith, length-drop n xs)

  pub length-replicate : (n : ℕ) (a : A) → length (replicate n a) ≡ n
  length-replicate zero a = refl
  length-replicate (suc n) a = ap suc (length-replicate n a)

  pub length-splice : (off : ℕ) (src xs : List A) → length (splice off src xs) ≡ length xs
  length-splice off src [] = refl
  length-splice off [] (x ∷ xs) = refl
  length-splice zero (s ∷ src) (x ∷ xs) = ap suc (length-splice zero src xs)
  length-splice (suc off) (s ∷ src) (x ∷ xs) = ap suc (length-splice off (s ∷ src) xs)

  pub get_or-set_self :
      (xs : List A) (i : ℕ) (v d : A) → i < length xs → get_or (set xs i v) i d ≡ v
  get_or-set_self [] i v d h = absurd (omega arith)
  get_or-set_self (x ∷ xs) zero v d h = refl
  get_or-set_self (x ∷ xs) (suc i) v d h = get_or-set_self xs i v d (omega arith)

  pub get_or-set_ne :
      (xs : List A) (i j : ℕ) (v d : A) → i ≢ j → get_or (set xs i v) j d ≡ get_or xs j d
  get_or-set_ne [] i j v d h = refl
  get_or-set_ne (x ∷ xs) zero zero v d h = absurd (h refl)
  get_or-set_ne (x ∷ xs) zero (suc j) v d h = refl
  get_or-set_ne (x ∷ xs) (suc i) zero v d h = refl
  get_or-set_ne (x ∷ xs) (suc i) (suc j) v d h = get_or-set_ne xs i j v d (λ e. h (ap suc e))

  pub get_elem?-eq-get_or :
      (xs : List A) (i : ℕ) (d : A) → i < length xs → get_elem? xs i ≡ some (get_or xs i d)
  get_elem?-eq-get_or [] i d h = absurd (omega arith)
  get_elem?-eq-get_or (x ∷ xs) zero d h = refl
  get_elem?-eq-get_or (x ∷ xs) (suc i) d h = get_elem?-eq-get_or xs i d (omega arith)

  pub get_or-append_right :
      (xs ys : List A) (i : ℕ) (d : A) → get_or (xs ++ ys) (length xs + i) d ≡ get_or ys i d
  get_or-append_right [] ys i d = ap (λ k. get_or ys k d) (omega arith)
  get_or-append_right (x ∷ xs) ys i d =
      let e : suc (length xs) + i ≡ suc (length xs + i) = omega arith in
      ap (λ k. get_or (x ∷ (xs ++ ys)) k d) e ∙ get_or-append_right xs ys i d

  pub get_or-append_left :
      (xs ys : List A) (i : ℕ) (d : A) → i < length xs → get_or (xs ++ ys) i d ≡ get_or xs i d
  get_or-append_left [] ys i d h = absurd (omega arith)
  get_or-append_left (x ∷ xs) ys zero d h = refl
  get_or-append_left (x ∷ xs) ys (suc i) d h = get_or-append_left xs ys i d (omega arith)

  pub take-append-drop : (n : ℕ) (xs : List A) → take n xs ++ drop n xs ≡ xs
  take-append-drop zero xs = refl
  take-append-drop (suc n) [] = refl
  take-append-drop (suc n) (x ∷ xs) = ap (◌∷◌ x) (take-append-drop n xs)

  pub take-append_length : (xs ys : List A) → take (length xs) (xs ++ ys) ≡ xs
  take-append_length [] ys = refl
  take-append_length (x ∷ xs) ys = ap (◌∷◌ x) (take-append_length xs ys)

  pub drop-append_length : (xs ys : List A) → drop (length xs) (xs ++ ys) ≡ ys
  drop-append_length [] ys = refl
  drop-append_length (x ∷ xs) ys = drop-append_length xs ys

  -- A slice that was just copied in reads back.
  pub slice-splice :
      (off : ℕ) (src xs : List A)
      → off + length src ≤ length xs
      → slice off (length src) (splice off src xs) ≡ src
  slice-splice off [] xs h = refl
  slice-splice off (s ∷ src) [] h = absurd (omega arith)
  slice-splice zero (s ∷ src) (x ∷ xs) h = ap (◌∷◌ s) (slice-splice zero src xs (omega arith))
  slice-splice (suc off) (s ∷ src) (x ∷ xs) h = slice-splice off (s ∷ src) xs (omega arith)

  -- The bytes of a splice: those of the source in its range, else those that were there.
  pub get_or-splice_in :
      (off : ℕ) (src xs : List A) (k : ℕ) (d : A)
      → k < length xs
      → off ≤ k
      → k < off + length src
      → get_or (splice off src xs) k d ≡ get_or src (k - off) d
  get_or-splice_in off src [] k d h l m = absurd (omega arith)
  get_or-splice_in off [] (x ∷ xs) k d h l m = absurd (omega arith)
  get_or-splice_in zero (s ∷ src) (x ∷ xs) zero d h l m = refl
  get_or-splice_in zero (s ∷ src) (x ∷ xs) (suc k) d h l m =
      let e : suc k - 0 ≡ suc (k - 0) = omega arith in
      get_or-splice_in zero src xs k d (omega arith) (omega arith) (omega arith)
      ∙ ap (λ i. get_or (s ∷ src) i d) (sym e)
  get_or-splice_in (suc off) (s ∷ src) (x ∷ xs) zero d h l m = absurd (omega arith)
  get_or-splice_in (suc off) (s ∷ src) (x ∷ xs) (suc k) d h l m =
      let e : suc k - suc off ≡ k - off = omega arith in
      get_or-splice_in off (s ∷ src) xs k d (omega arith) (omega arith) (omega arith)
      ∙ ap (λ i. get_or (s ∷ src) i d) (sym e)

  pub get_or-splice_before :
      (off : ℕ) (src xs : List A) (k : ℕ) (d : A)
      → k < off
      → get_or (splice off src xs) k d ≡ get_or xs k d
  get_or-splice_before off src [] k d h = refl
  get_or-splice_before off [] (x ∷ xs) k d h = refl
  get_or-splice_before zero (s ∷ src) (x ∷ xs) k d h = absurd (omega arith)
  get_or-splice_before (suc off) (s ∷ src) (x ∷ xs) zero d h = refl
  get_or-splice_before (suc off) (s ∷ src) (x ∷ xs) (suc k) d h =
      get_or-splice_before off (s ∷ src) xs k d (omega arith)

  pub get_or-splice_after :
      (off : ℕ) (src xs : List A) (k : ℕ) (d : A)
      → off + length src ≤ k
      → get_or (splice off src xs) k d ≡ get_or xs k d
  get_or-splice_after off src [] k d h = refl
  get_or-splice_after off [] (x ∷ xs) k d h = refl
  get_or-splice_after zero (s ∷ src) (x ∷ xs) zero d h = absurd (omega arith)
  get_or-splice_after zero (s ∷ src) (x ∷ xs) (suc k) d h =
      get_or-splice_after zero src xs k d (omega arith)
  get_or-splice_after (suc off) (s ∷ src) (x ∷ xs) zero d h = absurd (omega arith)
  get_or-splice_after (suc off) (s ∷ src) (x ∷ xs) (suc k) d h =
      get_or-splice_after off (s ∷ src) xs k d (omega arith)

  -- Padding with the default leaves every byte as it reads.
  pub get_or-replicate : (n k : ℕ) (d : A) → get_or (replicate n d) k d ≡ d
  get_or-replicate zero k d = refl
  get_or-replicate (suc n) zero d = refl
  get_or-replicate (suc n) (suc k) d = get_or-replicate n k d

  pub get_or-append_replicate :
      (xs : List A) (n k : ℕ) (d : A) → get_or (xs ++ replicate n d) k d ≡ get_or xs k d
  get_or-append_replicate [] n k d = get_or-replicate n k d
  get_or-append_replicate (x ∷ xs) n zero d = refl
  get_or-append_replicate (x ∷ xs) n (suc k) d = get_or-append_replicate xs n k d

module _ {ℓ κ} {A : Type ℓ} {B : Type κ} where
  pub length-map : (f : A → B) (xs : List A) → length (map f xs) ≡ length xs
  length-map f [] = refl
  length-map f (x ∷ xs) = ap suc (length-map f xs)
