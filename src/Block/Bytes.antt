-- ===== src/Block/Bytes.antt =====
-- Reads of BlockDevINode in fs/src/lib.rs, byte by byte.
use serix.Base.{
  ℕ, ◌/◌, ◌%◌, ◌≡◌, sym, ap, ◌∙◌, List, some, arith, some_inj, none≢some, inl, inr, length, get_or,
  Bool-cases, bytes, Divides-pos, gather-bytes,
}
use serix.Block.{BlockDev, read_sector, Sized}
use serix.Block.RawNode.{read}

abbrev pub byte_at : BlockDev → ℕ → ℕ
byte_at dev p = get_or (dev.sectors (p / 512)) (p % 512) 0

read_sector-Sized :
    (dev : BlockDev) (i : ℕ) (sector : List ℕ)
    → Sized dev
    → read_sector dev i ≡ some sector
    → length sector ≡ 512
unfolding read_sector
read_sector-Sized dev i sector z e = elim (Bool-cases (dev.readable i)) [
  | inl c ↦ let q : dev.sectors i ≡ sector = some_inj (rw c at e) in ap length (sym q) ∙ z i
  | inr c ↦ absurd (none≢some (rw c at e))
]

-- On a device whose sectors have 512 bytes, a read answers the bytes of the device one by one from the
-- offset on, as many as were asked for or up to the first that lies in a sector that cannot be read.
pub read-bytes :
    (dev : BlockDev) (offset len : ℕ)
    → Sized dev
    → read dev offset len ≡ bytes 512 (read_sector dev) offset len
unfolding read
read-bytes dev offset len z =
    gather-bytes 512 (read_sector dev) (Divides-pos 512 (omega arith))
      (λ i s e. read_sector-Sized dev i s z e) len offset len (omega arith)
