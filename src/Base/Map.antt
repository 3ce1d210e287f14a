-- ===== src/Base/Map.antt =====
-- `BTreeMap` as an association list: one value for each key, a write replaces.
use Prim.Native.Nat.{ℕ}
use mathlib.Core.Path.{◌≡◌, refl}
use mathlib.Core.Logic.{◌↔◌, inl, inr}
use mathlib.Core.Bool.{Bool, true, ◌&&◌}
use mathlib.Core.Option
use mathlib.Core.Option.{Option, none, some}
use mathlib.Core.List.{List, [], ◌∷◌}
use native.Mathlib.Omega.{arith}
use serix.Base.Tests.{if◌then◌else◌, ◌==◌, ==_iff, Bool-cases}
use serix.Base.Predicates.{Absent}

-- `Eq` of the keys
pub record Keyed {ℓ} (K : Type ℓ) : Type ℓ where
  pub same : K → K → Bool
  pub same_iff : (j k : K) → (same j k ≡ true) ↔ (j ≡ k)

abbrev pub keys {ℓ κ} : {K : Type ℓ} {V : Type κ} → List (K × V) → List K
keys [] = []
keys ((k, v) ∷ m) = k ∷ keys m

module _ {ℓ κ} {K : Type ℓ} {V : Type κ} ⦃e : Keyed K⦄ where
  unfoldable pub get : K → List (K × V) → Option V
  get k [] = none
  get k ((j, v) ∷ m) = if e.same j k then some v else get k m

  unfoldable pub insert : K → V → List (K × V) → List (K × V)
  insert k v [] = (k, v) ∷ []
  insert k v ((j, w) ∷ m) = if e.same j k then (k, v) ∷ m else (j, w) ∷ insert k v m

  -- Keep the entries whose key passes.
  unfoldable pub retain : (K → Bool) → List (K × V) → List (K × V)
  retain p [] = []
  retain p ((j, w) ∷ m) = if p j then (j, w) ∷ retain p m else retain p m

  unfoldable pub remove : K → List (K × V) → List (K × V)
  remove k [] = []
  remove k ((j, w) ∷ m) = if e.same j k then remove k m else (j, w) ∷ remove k m

  -- Apply a function to the value of one key.
  unfoldable pub modify : K → (V → V) → List (K × V) → List (K × V)
  modify k f [] = []
  modify k f ((j, w) ∷ m) = (j, if e.same j k then f w else w) ∷ modify k f m

  pub get-modify :
      (k j : K) (f : V → V) (m : List (K × V))
      → get j (modify k f m) ≡ (if e.same k j then Option.map f (get j m) else get j m)
  unfolding get modify
  get-modify k j f [] = ground arith
  get-modify k j f ((i, w) ∷ m) =
      ground (arith, get-modify k j f m, e.same_iff i k, e.same_iff i j, e.same_iff k j)

  pub get-Absent : (k : K) (m : List (K × V)) → Absent k (keys m) → get k m ≡ none
  unfolding get
  get-Absent k [] a = refl
  get-Absent k ((j, w) ∷ m) a = elim (Bool-cases (e.same j k)) [
    | inl h ↦ absurd (a.0 ((e.same_iff j k).0 h))
    | inr h ↦ rw h (get-Absent k m a.1)
  ]

  pub get-insert :
      (k j : K) (v : V) (m : List (K × V))
      → get j (insert k v m) ≡ (if e.same k j then some v else get j m)
  unfolding get insert
  get-insert k j v [] = refl
  get-insert k j v ((i, w) ∷ m) =
      ground (arith, get-insert k j v m, e.same_iff i k, e.same_iff i j, e.same_iff k j)

  pub get-remove :
      (k j : K) (m : List (K × V)) → get j (remove k m) ≡ (if e.same k j then none else get j m)
  unfolding get remove
  get-remove k j [] = ground arith
  get-remove k j ((i, w) ∷ m) =
      ground (arith, get-remove k j m, e.same_iff i k, e.same_iff i j, e.same_iff k j)

  pub get-retain :
      (p : K → Bool) (j : K) (m : List (K × V))
      → get j (retain p m) ≡ (if p j then get j m else none)
  unfolding get retain
  get-retain p j [] = ground arith
  get-retain p j ((i, w) ∷ m) = elim (Bool-cases (e.same i j)) [
    | inl h ↦ ground (arith, get-retain p j m, (e.same_iff i j).0 h)
    | inr h ↦ ground (arith, get-retain p j m)
  ]

pub pair_same_iff : (j k : ℕ × ℕ) → ((j.0 == k.0 && j.1 == k.1) ≡ true) ↔ (j ≡ k)
pair_same_iff (a, b) (c, d) = ((λ h. ground arith), (λ e. ground arith))

instance abbrev pub pair_keyed : Keyed (ℕ × ℕ)
pair_keyed = record { same = λ j k. j.0 == k.0 && j.1 == k.1; same_iff = pair_same_iff }

instance abbrev pub nat_keyed : Keyed ℕ
nat_keyed = record { same = ◌==◌; same_iff = ==_iff }
