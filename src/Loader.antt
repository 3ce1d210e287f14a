-- ===== src/Loader.antt =====
-- The ELF loader: loader/src/elf.rs and loader/src/lib.rs. The overflow checks are off, as in a release
-- build: `usize` and `u64` sums wrap around. A panic aborts the kernel and is an outcome of its own.
pub mod Segments
pub mod Image
mod Tests
use serix.Base.{
  ℕ, zero, suc, ◌+◌, ◌-◌, ◌*◌, ◌%◌, ◌^◌, bit_and, Bool, true, false, not, ◌&&◌, List, [], ◌∷◌, ◌++◌,
  if◌then◌else◌, ◌==◌, ltb, leb, length, get_or, take, replicate, slice,
}

pub record Elf64Header : Type 0 where
  pub e_ident : List ℕ
  pub e_type : ℕ
  pub e_machine : ℕ
  pub e_version : ℕ
  pub e_entry : ℕ
  pub e_phoff : ℕ
  pub e_shoff : ℕ
  pub e_flags : ℕ
  pub e_ehsize : ℕ
  pub e_phentsize : ℕ
  pub e_phnum : ℕ
  pub e_shentsize : ℕ
  pub e_shnum : ℕ
  pub e_shstrndx : ℕ

pub record ProgramHeader : Type 0 where
  pub p_type : ℕ
  pub p_flags : ℕ
  pub p_offset : ℕ
  pub p_vaddr : ℕ
  pub p_paddr : ℕ
  pub p_filesz : ℕ
  pub p_memsz : ℕ
  pub p_align : ℕ

pub record SegmentFlags : Type 0 where
  pub readable : Bool
  pub writable : Bool
  pub executable : Bool

pub record LoadableSegment : Type 0 where
  pub virtual_address : ℕ
  pub size : ℕ
  pub flags : SegmentFlags
  pub bytes : List ℕ

pub record LoadedImage : Type 0 where
  pub entry_point : ℕ
  pub segments : List LoadableSegment

-- The error messages.
pub data Refusal : Type 0 where
  no_magic not_64_bit not_x86_64 too_small headers_truncated segment_truncated : Refusal

pub data Loading {ℓ} (A : Type ℓ) : Type ℓ where
  loaded : A → Loading A
  refused : Refusal → Loading A
  panics : Loading A

-- A little-endian number of `n` bytes at an address.
unfoldable pub read_le : (ℕ → ℕ) → ℕ → ℕ → ℕ
read_le mem at zero = 0
read_le mem at (suc n) = mem at + 256 * read_le mem (at + 1) n

-- The bytes behind the slice's pointer: those of the slice, and past its end what is in memory there.
unfoldable pub memory : (ℕ → ℕ) → List ℕ → ℕ → ℕ
memory beyond file i = if ltb i (length file) then get_or file i 0 else beyond i

-- The cast of the first 64 bytes.
unfoldable pub read_header : (ℕ → ℕ) → List ℕ → Elf64Header
read_header mem file = record {
  e_ident = take 16 file;
  e_type = read_le mem 16 2;
  e_machine = read_le mem 18 2;
  e_version = read_le mem 20 4;
  e_entry = read_le mem 24 8;
  e_phoff = read_le mem 32 8;
  e_shoff = read_le mem 40 8;
  e_flags = read_le mem 48 4;
  e_ehsize = read_le mem 52 2;
  e_phentsize = read_le mem 54 2;
  e_phnum = read_le mem 56 2;
  e_shentsize = read_le mem 58 2;
  e_shnum = read_le mem 60 2;
  e_shstrndx = read_le mem 62 2;
}

-- The cast at a program header's address.
unfoldable pub read_program_header : (ℕ → ℕ) → ℕ → ProgramHeader
read_program_header mem at = record {
  p_type = read_le mem at 4;
  p_flags = read_le mem (at + 4) 4;
  p_offset = read_le mem (at + 8) 8;
  p_vaddr = read_le mem (at + 16) 8;
  p_paddr = read_le mem (at + 24) 8;
  p_filesz = read_le mem (at + 32) 8;
  p_memsz = read_le mem (at + 40) 8;
  p_align = read_le mem (at + 48) 8;
}

unfoldable pub has_magic : List ℕ → Bool
has_magic ident =
    get_or ident 0 0 == 127
    && get_or ident 1 0 == 69
    && get_or ident 2 0 == 76
    && get_or ident 3 0 == 70

-- `Elf64Header::validate`, before the rest.
unfoldable pub validate : {A : Type 0} → Elf64Header → Loading A → Loading A
validate h next =
    if not (has_magic h.e_ident)
    then refused no_magic
    else if not (get_or h.e_ident 4 0 == 2)
    then refused not_64_bit
    else if not (h.e_machine == 62)
    then refused not_x86_64
    else next

-- `Vec::resize` with zeros
unfoldable pub resize : ℕ → List ℕ → List ℕ
resize n xs = take n xs ++ replicate (n - length xs) 0

unfoldable pub segment_flags : ℕ → SegmentFlags
segment_flags flags = record {
  readable = not (bit_and flags 4 == 0);
  writable = not (bit_and flags 2 == 0);
  executable = not (bit_and flags 1 == 0);
}

-- `canonical` is the condition under which `VirtAddr::new` does not panic. A capacity above
-- `isize::MAX` panics, and so does a slice that ends before it starts.
module _ (canonical : ℕ → Bool) where
  unfoldable pub load_segment : List ℕ → ProgramHeader → Loading LoadableSegment
  unfolding resize segment_flags
  load_segment file ph =
      let end = (ph.p_offset + ph.p_filesz) % 2 ^ 64 in
      let zero_fill = (ph.p_memsz + 2 ^ 64 - ph.p_filesz) % 2 ^ 64 in
      let copied = slice ph.p_offset (end - ph.p_offset) file in
      if ltb (length file) end
      then refused segment_truncated
      else if leb (2 ^ 63) ph.p_memsz
      then panics
      else if ltb end ph.p_offset
      then panics
      else if not (canonical ph.p_vaddr)
      then panics
      else loaded (record {
        virtual_address = ph.p_vaddr;
        size = ph.p_memsz;
        flags = segment_flags ph.p_flags;
        bytes = resize ((length copied + zero_fill) % 2 ^ 64) copied;
      })

  -- A segment that is loaded is put before those of the headers that follow.
  abbrev pub join :
      Loading LoadableSegment → Loading (List LoadableSegment) → Loading (List LoadableSegment)
  join (loaded s) (loaded ss) = loaded (s ∷ ss)
  join (loaded s) (refused r) = refused r
  join (loaded s) panics = panics
  join (refused r) rest = refused r
  join panics rest = panics

  -- The loop over the program headers; type 1 is `SegmentType::Load`.
  unfoldable pub load_segments : List ℕ → List ProgramHeader → Loading (List LoadableSegment)
  unfolding load_segment
  load_segments file [] = loaded []
  load_segments file (ph ∷ phs) =
      let rest = load_segments file phs in
      if ph.p_type == 1 then join (load_segment file ph) rest else rest

-- The program headers, in the order of the file.
unfoldable pub program_headers : (ℕ → ℕ) → ℕ → ℕ → ℕ → List ProgramHeader
program_headers mem at size zero = []
program_headers mem at size (suc n) =
    read_program_header mem at ∷ program_headers mem ((at + size) % 2 ^ 64) size n

abbrev pub headers_of : (ℕ → ℕ) → Elf64Header → List ProgramHeader
headers_of mem h = program_headers mem h.e_phoff h.e_phentsize h.e_phnum

abbrev pub image_of : (ℕ → Bool) → ℕ → Loading (List LoadableSegment) → Loading LoadedImage
image_of canonical entry (refused r) = refused r
image_of canonical entry panics = panics
image_of canonical entry (loaded ss) =
    if canonical entry then loaded (record { entry_point = entry; segments = ss }) else panics

unfoldable pub load_elf : (ℕ → Bool) → (ℕ → ℕ) → List ℕ → Loading LoadedImage
unfolding validate load_segments memory read_header program_headers
load_elf canonical beyond file =
    let mem = memory beyond file in
    let h = read_header mem file in
    if ltb (length file) 64
    then refused too_small
    else validate h (
        if ltb (length file) ((h.e_phoff + h.e_phnum * h.e_phentsize) % 2 ^ 64)
        then refused headers_truncated
        else image_of canonical h.e_entry (load_segments canonical file (headers_of mem h)))
