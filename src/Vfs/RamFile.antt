-- ===== src/Vfs/RamFile.antt =====
-- `RamFile` of vfs/src/lib.rs: a file that is a growable buffer of bytes.
use serix.Base.{
  ℕ, ◌+◌, ◌-◌, ◌%◌, ◌^◌, Option, none, some, ◌&&◌, List, [], ◌++◌, min, if◌then◌else◌, leb, ltb,
  length, get_or, replicate, slice, splice,
}
use serix.Vfs.{FileType, file}
use serix.Vfs.Path.{Str}

pub record RamFile : Type 0 where
  pub name : Str
  pub bytes : List ℕ

unfoldable pub new : Str → RamFile
new n = record { name = n; bytes = [] }

-- `read(offset, buf)` for a buffer of `len` bytes: the bytes copied into it.
unfoldable pub read : ℕ → ℕ → RamFile → List ℕ
read offset len f =
    if leb (length f.bytes) offset
    then []
    else slice offset (min len (length f.bytes - offset)) f.bytes

-- `data.resize(n, 0)`, where `n` is larger than the length.
unfoldable pub grow : ℕ → List ℕ → List ℕ
grow n xs = if ltb (length xs) n then xs ++ replicate (n - length xs) 0 else xs

-- The end of the range is computed in a `usize`; where it wraps around it lies before the offset, and the
-- slice panics, which is none here.
unfoldable pub write : ℕ → List ℕ → RamFile → Option (ℕ × RamFile)
unfolding grow
write offset buf f =
    let stop = (offset + length buf) % 2 ^ 64 in
    let grown = grow stop f.bytes in
    if ltb stop offset
    then none
    else some (length buf, record { name = f.name; bytes = splice offset buf grown })

unfoldable pub metadata : RamFile → FileType
metadata f = file

unfoldable pub size : RamFile → ℕ
size f = length f.bytes

-- The bytes after a write: those of the buffer in its range, and otherwise those that were there, where
-- bytes past the end of the data count as 0.
abbrev pub patched : ℕ → List ℕ → List ℕ → ℕ → ℕ
patched offset buf old k =
    if leb offset k && ltb k (offset + length buf)
    then get_or buf (k - offset) 0
    else get_or old k 0
