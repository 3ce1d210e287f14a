-- ===== src/Block/Tests.antt =====
-- A small device read and written at concrete positions.
use serix.Base.{ℕ, ◌≡◌, refl, true, List, [], ◌∷◌, replicate, length, bytes, length-replicate}
use serix.Block.{BlockDev, read_sector, Works, Sized}
use serix.Block.RawNode.{read, write}
use serix.Block.Bytes.{byte_at, read-bytes}
use serix.Block.Patch.{put, write-put}

-- Every byte of a sector is the number of the sector.
abbrev disk : BlockDev
disk = record {
  sectors = λ s. replicate 512 s;
  readable = λ _. true;
  writable = λ _. true;
  count = 8;
}

disk-Works : Works disk
disk-Works = ((λ s. refl), (λ s. refl))

disk-Sized : Sized disk
disk-Sized s = length-replicate 512 s

read-bytes_example : read disk 510 4 ≡ bytes 512 (read_sector disk) 510 4
read-bytes_example = read-bytes disk 510 4 disk-Sized

abbrev seven_nine : List ℕ
seven_nine = 7 ∷ 9 ∷ []

write-put_example :
    ((write disk 511 seven_nine).0 ≡ length seven_nine)
    × (byte_at (write disk 511 seven_nine).1 512 ≡ put disk 511 seven_nine 512)
write-put_example = write-put disk 511 seven_nine 512 disk-Works disk-Sized
