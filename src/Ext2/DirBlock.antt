-- ===== src/Ext2/DirBlock.antt =====
-- What a directory block holds: the relation between the bytes of a block and the list of its entries,
-- for fs/src/ext2/dir.rs.
pub mod Insert
pub mod Remove
pub mod Search
pub mod Unlink
pub mod Walk
pub mod Split
use serix.Base.{
  ℕ, ◌+◌, ◌-◌, ◌≤◌, ◌<◌, ◌≡◌, min, Bool, not, ◌&&◌, List, [], ◌∷◌, Option, none, some,
  if◌then◌else◌, ◌==◌, length, slice, le_at,
}
use serix.Vfs.Path.{Str, str_eq}
use serix.Ext2.Dir.{entry_at}
use serix.Ext2.DirEdit.{entry_size}

-- The bytes at an offset are an entry with this number, size and name. The entry lies in the block and
-- is large enough for its name.
pub record Shows (block : List ℕ) (off rec_len ino : ℕ) (name : Str) : Type 0 where
  pub room : off + 8 ≤ length block
  pub size : entry_size (le_at block (off + 6) 1) ≤ rec_len
  pub fits : off + rec_len ≤ length block
  pub shows_len : le_at block (off + 4) 2 ≡ rec_len
  pub shows_ino : le_at block off 4 ≡ ino
  pub shows_name : (entry_at block off).name ≡ name

-- From an offset on, the block is a chain of entries that ends with the block.
pub data Holds (block : List ℕ) : ℕ → List (ℕ × Str) → Type 0 where
  last :
      {off rec_len ino : ℕ} {name : Str}
      → Shows block off rec_len ino name
      → off + rec_len ≡ length block
      → Holds block off ((ino, name) ∷ [])
  next :
      {off rec_len ino : ℕ} {name : Str} {l : List (ℕ × Str)}
      → Shows block off rec_len ino name
      → Holds block (off + rec_len) l
      → Holds block off ((ino, name) ∷ l)

-- An entry with inode number 0 is free.
abbrev pub is_live : Str → ℕ × Str → Bool
is_live name (ino, n) = not (ino == 0) && str_eq n name

-- The number of the first live entry with a name.
unfoldable pub find : Str → List (ℕ × Str) → Option ℕ
find name [] = none
find name ((ino, n) ∷ l) =
    let rest = find name l in if is_live name (ino, n) then some ino else rest
