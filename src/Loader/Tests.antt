-- ===== src/Loader/Tests.antt =====
-- A file with one segment.
use serix.Base.{
  ℕ, ◌<◌, ◌≡◌, refl, Bool, true, false, ◌&&◌, List, [], ◌∷◌, ◌++◌, All, arith, ltb, get_or,
  replicate,
}
use serix.Loader
use serix.Loader.{LoadedImage, loaded, memory, has_magic, read_header, headers_of, load_elf}
use serix.Loader.Image.{Match, loads, load_elf-Match}

-- A number below 256 in `n + 1` bytes.
abbrev small : ℕ → ℕ → List ℕ
small v n = v ∷ replicate n 0

abbrev page : List ℕ
page = 0 ∷ 16 ∷ replicate 6 0

abbrev elf_header : List ℕ
elf_header =
    (127 ∷ 69 ∷ 76 ∷ 70 ∷ 2 ∷ replicate 11 0)
    ++ small 2 1
    ++ small 62 1
    ++ small 1 3
    ++ page
    ++ small 64 7
    ++ small 0 7
    ++ small 0 3
    ++ small 64 1
    ++ small 56 1
    ++ small 1 1
    ++ replicate 6 0

abbrev program_header : List ℕ
program_header =
    small 1 3
    ++ small 5 3
    ++ small 120 7
    ++ page
    ++ small 0 7
    ++ small 2 7
    ++ small 4 7
    ++ small 0 7

abbrev program : List ℕ
program = elf_header ++ program_header ++ 144 ∷ 195 ∷ []

abbrev lower_half : ℕ → Bool
lower_half a = ltb a 140737488355328

abbrev zeros : ℕ → ℕ
zeros i = 0

abbrev image : LoadedImage
image = record {
  entry_point = 4096;
  segments =
      record {
        virtual_address = 4096;
        size = 4;
        flags = record { readable = true; writable = false; executable = true };
        bytes = 144 ∷ 195 ∷ 0 ∷ 0 ∷ [];
      }
      ∷ [];
}

all_below : List ℕ → Bool
all_below [] = true
all_below (x ∷ xs) = ltb x 256 && all_below xs

all_below-All : (xs : List ℕ) → all_below xs ≡ true → All (λ x. x < 256) xs
unfolding all_below
all_below-All [] h = tt
all_below-All (x ∷ xs) h = (ground (arith, h), all_below-All xs (ground (arith, h)))

program_below : all_below program ≡ true
unfolding all_below
program_below = refl

load_elf-Match_example :
    let h = read_header (memory zeros program) program in
    (has_magic h.e_ident ≡ true)
    × ((get_or h.e_ident 4 0 ≡ 2)
        × ((h.e_machine ≡ 62)
            × ((image.entry_point ≡ h.e_entry)
                × Match program (loads (headers_of (memory zeros program) h)) image.segments)))
unfolding load_elf has_magic Loader.read_le Loader.read_program_header
load_elf-Match_example =
    load_elf-Match lower_half zeros program image (λ i. omega arith)
      (all_below-All program program_below) refl
