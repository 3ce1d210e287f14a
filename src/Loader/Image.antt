-- ===== src/Loader/Image.antt =====
-- A file that `load_elf` accepts, and the image it makes of it.
use serix.Base.{
  ℕ, zero, suc, ◌+◌, ◌*◌, ◌%◌, ◌^◌, ◌<◌, ◌≡◌, refl, sym, Bool, true, List, [], ◌∷◌, arith,
  if◌then◌else◌, ◌==◌, ltb, length, get_or, All, Bool-cases, inl, inr, subst,
}
use serix.Loader.{
  ProgramHeader, LoadableSegment, LoadedImage, Loading, loaded, refused, panics, read_le, memory,
  has_magic, read_header, read_program_header, validate, load_segment, join, load_segments,
  program_headers, headers_of, image_of, load_elf,
}
use serix.Loader.Segments.{Faithful, load_segment-Faithful, loaded_inj}

-- The headers of type LOAD.
unfoldable pub loads : List ProgramHeader → List ProgramHeader
loads [] = []
loads (ph ∷ phs) = if ph.p_type == 1 then ph ∷ loads phs else loads phs

-- One segment for each header, in the same order.
abbrev pub Match : List ℕ → List ProgramHeader → List LoadableSegment → Type 0
Match file [] [] = Unit
Match file (ph ∷ phs) (s ∷ ss) = Faithful file ph s × Match file phs ss
Match file _ _ = ⊥

abbrev Bounded : ProgramHeader → Type 0
Bounded ph = (ph.p_offset < 2 ^ 64) × (ph.p_filesz < 2 ^ 64)

join-loaded :
    (canonical : ℕ → Bool) (a : Loading LoadableSegment) (b : Loading (List LoadableSegment))
    (ss : List LoadableSegment)
    → join canonical a b ≡ loaded ss
    → (s : LoadableSegment) × ((r : List LoadableSegment) × ((a ≡ loaded s)
          × ((b ≡ loaded r) × (s ∷ r ≡ ss))))
join-loaded canonical (loaded s) (loaded r) ss h = (s, (r, (refl, (refl, loaded_inj h))))
join-loaded canonical (loaded s) (refused r) ss h = absurd (ground (arith, h))
join-loaded canonical (loaded s) panics ss h = absurd (ground (arith, h))
join-loaded canonical (refused r) b ss h = absurd (ground (arith, h))
join-loaded canonical panics b ss h = absurd (ground (arith, h))

load_segments-Match :
    (canonical : ℕ → Bool) (file : List ℕ) (phs : List ProgramHeader) (ss : List LoadableSegment)
    → All Bounded phs
    → load_segments canonical file phs ≡ loaded ss
    → Match file (loads phs) ss
unfolding load_segments loads
load_segments-Match canonical file [] ss b h = subst (Match file []) (loaded_inj h) tt
load_segments-Match canonical file (ph ∷ phs) ss b h = elim (Bool-cases (ph.p_type == 1)) [
  | inl c ↦
      let g : join canonical (load_segment canonical file ph) (load_segments canonical file phs)
          ≡ loaded ss =
        rw (load_segments, c) at h in
      let (s, (r, (es, (er, e)))) = join-loaded canonical _ _ ss g in
      let q : loads (ph ∷ phs) ≡ ph ∷ loads phs = rw (loads, c) refl in
      let f = load_segment-Faithful canonical file ph s b.0.0 b.0.1 es in
      let m = load_segments-Match canonical file phs r b.1 er in
      subst (λ hs. Match file hs ss) (sym q) (subst (Match file (ph ∷ loads phs)) e (f, m))
  | inr c ↦
      let g : load_segments canonical file phs ≡ loaded ss = rw (load_segments, c) at h in
      let q : loads (ph ∷ phs) ≡ loads phs = rw (loads, c) refl in
      subst (λ hs. Match file hs ss) (sym q) (load_segments-Match canonical file phs ss b.1 g)
]

read_le-lt : (mem : ℕ → ℕ) (at n : ℕ) → ((i : ℕ) → mem i < 256) → read_le mem at n < 256 ^ n
unfolding read_le
read_le-lt mem at zero b = omega arith
read_le-lt mem at (suc n) b =
    let ih = read_le-lt mem (at + 1) n b in
    let e : 256 ^ suc n ≡ 256 * 256 ^ n = omega arith in omega (arith, ih, e, b at)

program_headers-Bounded :
    (mem : ℕ → ℕ) (at size n : ℕ)
    → ((i : ℕ) → mem i < 256)
    → All Bounded (program_headers mem at size n)
unfolding program_headers read_program_header
program_headers-Bounded mem at size zero b = tt
program_headers-Bounded mem at size (suc n) b = (
  (read_le-lt mem (at + 8) 8 b, read_le-lt mem (at + 32) 8 b),
  program_headers-Bounded mem ((at + size) % 2 ^ 64) size n b,
)

All-get_or : (file : List ℕ) (i : ℕ) → All (λ x. x < 256) file → get_or file i 0 < 256
All-get_or [] i a = omega arith
All-get_or (x ∷ file) zero a = a.0
All-get_or (x ∷ file) (suc i) a = All-get_or file i a.1

memory-lt :
    (beyond : ℕ → ℕ) (file : List ℕ)
    → ((i : ℕ) → beyond i < 256)
    → All (λ x. x < 256) file
    → (i : ℕ) → memory beyond file i < 256
unfolding memory
memory-lt beyond file b a i = ground (arith, b i, All-get_or file i a)

image_of-loaded :
    (canonical : ℕ → Bool) (entry : ℕ) (l : Loading (List LoadableSegment)) (image : LoadedImage)
    → image_of canonical entry l ≡ loaded image
    → (image.entry_point ≡ entry) × (l ≡ loaded image.segments)
image_of-loaded canonical entry (refused r) image h = absurd (ground (arith, h))
image_of-loaded canonical entry panics image h = absurd (ground (arith, h))
image_of-loaded canonical entry (loaded ss) image h = elim (Bool-cases (canonical entry)) [
  | inl c ↦
      let g : loaded (record { entry_point = entry; segments = ss }) ≡ loaded image = rw c at h in
      subst (λ i. (i.entry_point ≡ entry) × (loaded ss ≡ loaded i.segments)) (loaded_inj g)
        (refl, refl)
  | inr c ↦ absurd (ground (arith, h, c))
]

-- A file of bytes that is loaded starts with the ELF magic and the 64-bit class and is for x86_64; the
-- image starts at the entry point of the header, and has one segment for each program header of type
-- LOAD, in their order, which holds what that header describes: the bytes of the file from the
-- header's offset on, all of them within the file, followed by zeros up to the memory size.
pub load_elf-Match :
    (canonical : ℕ → Bool) (beyond : ℕ → ℕ) (file : List ℕ) (image : LoadedImage)
    → ((i : ℕ) → beyond i < 256)
    → All (λ x. x < 256) file
    → load_elf canonical beyond file ≡ loaded image
    → let h = read_header (memory beyond file) file in
      (has_magic h.e_ident ≡ true)
      × ((get_or h.e_ident 4 0 ≡ 2)
          × ((h.e_machine ≡ 62)
              × ((image.entry_point ≡ h.e_entry)
                  × Match file (loads (headers_of (memory beyond file) h)) image.segments)))
unfolding load_elf validate
load_elf-Match canonical beyond file image b a l =
    let mem = memory beyond file in
    let h = read_header mem file in
    elim (Bool-cases (ltb (length file) 64)) [
      | inl c ↦ absurd (ground (arith, l, c))
      | inr c ↦ elim (Bool-cases (has_magic h.e_ident)) [
        | inr d ↦ absurd (ground (arith, l, c, d))
        | inl d ↦ elim (Bool-cases (get_or h.e_ident 4 0 == 2)) [
          | inr e ↦ absurd (ground (arith, l, c, d, e))
          | inl e ↦ elim (Bool-cases (h.e_machine == 62)) [
            | inr f ↦ absurd (ground (arith, l, c, d, e, f))
            | inl f ↦
                elim (Bool-cases
                  (ltb (length file) ((h.e_phoff + h.e_phnum * h.e_phentsize) % 2 ^ 64))) [
                    | inl g ↦ absurd (ground (arith, l, c, d, e, f, g))
                    | inr g ↦
                        let k : image_of canonical h.e_entry
                              (load_segments canonical file (headers_of mem h))
                            ≡ loaded image =
                          rw (load_elf, validate, c, d, e, f, g) at l in
                        let (entry, segs) = image_of-loaded canonical h.e_entry _ image k in
                        let bounded =
                          program_headers-Bounded mem h.e_phoff h.e_phentsize h.e_phnum
                            (memory-lt beyond file b a) in
                        (
                          d,
                          (
                            ground (arith, e),
                            (
                              ground (arith, f),
                              (
                                entry,
                                load_segments-Match canonical file (headers_of mem h) image.segments
                                    bounded segs,
                              ),
                            ),
                          ),
                        )
                  ]
          ]
        ]
      ]
    ]
