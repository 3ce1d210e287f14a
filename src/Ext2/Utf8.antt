-- ===== src/Ext2/Utf8.antt =====
-- `core::str::from_utf8`, which fs/src/ext2/dir.rs calls on the names of entries: the well-formed byte
-- sequences of Unicode.
use serix.Base.{ℕ, Bool, true, false, ◌&&◌, List, [], ◌∷◌, Option, none, some, if◌then◌else◌, leb}

abbrev range : ℕ → ℕ → ℕ → Bool
range lo hi b = leb lo b && leb b hi

abbrev tail : ℕ × ℕ
tail = (128, 191)

-- The ranges of the bytes that follow a first byte.
unfoldable pub followers : ℕ → Option (List (ℕ × ℕ))
followers b =
    if leb b 127
    then some []
    else if range 194 223 b
    then some (tail ∷ [])
    else if range 224 224 b
    then some ((160, 191) ∷ tail ∷ [])
    else if range 237 237 b
    then some ((128, 159) ∷ tail ∷ [])
    else if range 225 239 b
    then some (tail ∷ tail ∷ [])
    else if range 240 240 b
    then some ((144, 191) ∷ tail ∷ tail ∷ [])
    else if range 241 243 b
    then some (tail ∷ tail ∷ tail ∷ [])
    else if range 244 244 b
    then some ((128, 143) ∷ tail ∷ tail ∷ [])
    else none

unfoldable pub utf8_from : List (ℕ × ℕ) → List ℕ → Bool
utf8_from [] [] = true
utf8_from (_ ∷ _) [] = false
utf8_from ((lo, hi) ∷ due) (b ∷ bs) = range lo hi b && utf8_from due bs
utf8_from [] (b ∷ bs) = elim (followers b) [ none ↦ false | some due ↦ utf8_from due bs ]

unfoldable pub is_utf8 : List ℕ → Bool
is_utf8 bytes = utf8_from [] bytes
