-- ===== src/Vfs/Path.antt =====
-- The operations on path strings that vfs/src/lib.rs uses, and `normalize_mount_path`.
use serix.Base.{
  ℕ, ◌≡◌, ◌↔◌, refl, Bool, true, false, ◌&&◌, List, [], ◌∷◌, ◌++◌, Option, none, some, arith,
  if◌then◌else◌, ◌==◌, Bool-cases, inl, inr,
}

abbrev pub Str : Type 0
Str = List ℕ

abbrev pub slash : ℕ
slash = b'/'

abbrev pub root : Str
root = slash ∷ []

unfoldable pub str_eq : Str → Str → Bool
str_eq [] [] = true
str_eq (x ∷ xs) (y ∷ ys) = x == y && str_eq xs ys
str_eq _ _ = false

pub str_eq_iff : (s t : Str) → (str_eq s t ≡ true) ↔ (s ≡ t)
unfolding str_eq
str_eq_iff [] [] = ((λ h. refl), (λ h. refl))
str_eq_iff [] (y ∷ ys) = ((λ h. cc), (λ h. cc))
str_eq_iff (x ∷ xs) [] = ((λ h. cc), (λ h. cc))
str_eq_iff (x ∷ xs) (y ∷ ys) =
    let ih = str_eq_iff xs ys in ((λ h. ground (arith, ih.0)), (λ h. ground (arith, ih.1)))

pub str_eq_refl : (s : Str) → str_eq s s ≡ true
str_eq_refl s = (str_eq_iff s s).1 refl

unfoldable pub is_empty : Str → Bool
is_empty [] = true
is_empty (x ∷ xs) = false

-- `trim_end_matches('/')`
unfoldable pub trim_end : Str → Str
unfolding is_empty
trim_end [] = []
trim_end (x ∷ xs) = let r = trim_end xs in if is_empty r && x == slash then [] else x ∷ r

-- `trim_start_matches('/')`
unfoldable pub trim_start : Str → Str
trim_start [] = []
trim_start (x ∷ xs) = if x == slash then trim_start xs else x ∷ xs

unfoldable pub strip_prefix : Str → Str → Option Str
strip_prefix [] s = some s
strip_prefix (x ∷ xs) [] = none
strip_prefix (x ∷ xs) (y ∷ ys) = if x == y then strip_prefix xs ys else none

unfoldable pub starts_with : Str → Str → Bool
unfolding strip_prefix
starts_with s pre = elim (strip_prefix pre s) [ none ↦ false | some r ↦ true ]

-- `split('/')` and the filter of empty components; `part` is the component read so far.
unfoldable pub components_from : Str → Str → List Str
components_from part [] = if is_empty part then [] else part ∷ []
components_from part (x ∷ xs) =
    let rest = components_from [] xs in
    let more = components_from (part ++ x ∷ []) xs in
    if x == slash then (if is_empty part then rest else part ∷ rest) else more

abbrev pub components : Str → List Str
components s = components_from [] s

-- `normalize_mount_path`
unfoldable pub normalize_mount_path : Str → Str
unfolding str_eq trim_end
normalize_mount_path path = if str_eq path root then root else trim_end path ++ root

-- Trimming again changes nothing.
pub trim_end-trim_end : (s : Str) → trim_end (trim_end s) ≡ trim_end s
unfolding trim_end
trim_end-trim_end [] = refl
trim_end-trim_end (x ∷ xs) = ground (arith, trim_end-trim_end xs)

-- One slash behind a trimmed path is trimmed off.
pub trim_end-slash : (s : Str) → trim_end (trim_end s ++ root) ≡ trim_end s
unfolding trim_end is_empty
trim_end-slash [] = refl
trim_end-slash (x ∷ xs) = elim (Bool-cases (is_empty (trim_end xs) && x == slash)) [
  | inl e ↦ ground (arith, e)
  | inr e ↦ ground (arith, e, trim_end-slash xs)
]
