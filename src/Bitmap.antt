-- ===== src/Bitmap.antt =====
-- The bitmap helpers of fs/src/ext2/bitmap_alloc.rs. Bit `k` of a byte is read and written by halving
-- the byte k times, which is what the shifts and masks of the source do.
pub mod Search
pub mod Write
use serix.Base.{
  ℕ, zero, suc, ◌+◌, ◌-◌, ◌*◌, ◌/◌, ◌%◌, Bool, true, false, not, List, [], ◌∷◌, Option, none, some,
  if◌then◌else◌, ◌==◌, get_or, set,
}

-- Whether `byte & (1 << k)` is not zero.
unfoldable pub bit : ℕ → ℕ → Bool
bit zero byte = byte % 2 == 1
bit (suc k) byte = bit k (byte / 2)

-- `byte | 1 << k`
unfoldable pub or_bit : ℕ → ℕ → ℕ
or_bit zero byte = byte - byte % 2 + 1
or_bit (suc k) byte = or_bit k (byte / 2) * 2 + byte % 2

-- `byte & !(1 << k)`
unfoldable pub and_not_bit : ℕ → ℕ → ℕ
and_not_bit zero byte = byte - byte % 2
and_not_bit (suc k) byte = and_not_bit k (byte / 2) * 2 + byte % 2

-- The inner loop of `find_free_bit`, `n` rounds from bit `k` on.
unfoldable pub find_in_byte : ℕ → ℕ → ℕ → Option ℕ
unfolding bit
find_in_byte byte k zero = none
find_in_byte byte k (suc n) =
    let rest = find_in_byte byte (k + 1) n in if not (bit k byte) then some k else rest

-- The outer loop, from byte `i` on; a byte with no free bit is passed over.
unfoldable pub find_from : ℕ → List ℕ → Option ℕ
unfolding find_in_byte
find_from i [] = none
find_from i (byte ∷ bytes) =
    let rest = find_from (i + 1) bytes in
    if not (byte == 255)
    then elim (find_in_byte byte 0 8) [ none ↦ rest | some k ↦ some (i * 8 + k) ]
    else rest

unfoldable pub find_free_bit : List ℕ → Option ℕ
unfolding find_from
find_free_bit bitmap = find_from 0 bitmap

-- An index past the end panics in the source, and changes nothing here.
unfoldable pub set_bit : List ℕ → ℕ → List ℕ
unfolding or_bit
set_bit bitmap idx = set bitmap (idx / 8) (or_bit (idx % 8) (get_or bitmap (idx / 8) 0))

unfoldable pub clear_bit : List ℕ → ℕ → List ℕ
unfolding and_not_bit
clear_bit bitmap idx = set bitmap (idx / 8) (and_not_bit (idx % 8) (get_or bitmap (idx / 8) 0))

-- Whether the bit of an index is set.
unfoldable pub is_set : List ℕ → ℕ → Bool
unfolding bit
is_set bitmap idx = bit (idx % 8) (get_or bitmap (idx / 8) 0)
