-- ===== src/Base/Predicates.antt =====
-- Predicates on lists by recursion, which compute to products.
use mathlib.Core.Path.{sym}
use mathlib.Core.Logic.{◌≢◌}
use mathlib.Core.List.{List, [], ◌∷◌, ◌++◌}

module _ {ℓ κ} {A : Type ℓ} (P : A → Type κ) where
  abbrev pub All : List A → Type κ
  All [] = Unit
  All (x ∷ xs) = P x × All xs

  pub All-append : (xs ys : List A) → All xs → All ys → All (xs ++ ys)
  All-append [] ys hx hy = hy
  All-append (x ∷ xs) ys hx hy = (hx.0, All-append xs ys hx.1 hy)

  pub All-left : (xs ys : List A) → All (xs ++ ys) → All xs
  All-left [] ys h = tt
  All-left (x ∷ xs) ys h = (h.0, All-left xs ys h.1)

  pub All-right : (xs ys : List A) → All (xs ++ ys) → All ys
  All-right [] ys h = h
  All-right (x ∷ xs) ys h = All-right xs ys h.1

pub All-map {ℓ κ} :
    {A : Type ℓ} (P Q : A → Type κ) → ((x : A) → P x → Q x) → (xs : List A) → All P xs → All Q xs
All-map P Q f [] h = tt
All-map P Q f (x ∷ xs) h = (f x h.0, All-map P Q f xs h.1)

-- Two facts about every element, joined.
pub All-zip {ℓ κ} :
    {A : Type ℓ} (P Q : A → Type κ) (R : A → Type κ)
    → ((x : A) → P x → Q x → R x)
    → (xs : List A) → All P xs
    → All Q xs
    → All R xs
All-zip P Q R f [] h k = tt
All-zip P Q R f (x ∷ xs) h k = (f x h.0 k.0, All-zip P Q R f xs h.1 k.1)

-- `x` does not occur.
abbrev pub Absent {ℓ} : {A : Type ℓ} → A → List A → Type ℓ
Absent x = All (λ y. y ≢ x)

abbrev pub Distinct {ℓ} : {A : Type ℓ} → List A → Type ℓ
Distinct [] = Unit
Distinct (x ∷ xs) = Absent x xs × Distinct xs

-- A list with a new last element.
pub Distinct-snoc {ℓ} :
    {A : Type ℓ} (x : A) (xs : List A) → Absent x xs → Distinct xs → Distinct (xs ++ x ∷ [])
Distinct-snoc x [] h d = (tt, tt)
Distinct-snoc x (y ∷ xs) h d =
    (All-append _ xs (x ∷ []) d.0 ((λ e. h.0 (sym e)), tt), Distinct-snoc x xs h.1 d.1)
