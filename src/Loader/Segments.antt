-- ===== src/Loader/Segments.antt =====
-- What `load_elf` puts into memory.
use serix.Base.{
  ℕ, zero, suc, ◌+◌, ◌-◌, ◌%◌, ◌^◌, ◌≤◌, ◌<◌, ◌≡◌, refl, sym, ap, ◌∙◌, Bool, ◌&&◌, List, [], ◌∷◌,
  arith, if◌then◌else◌, ltb, leb, length, get_or, take, drop, replicate, slice, Bool-cases, inl,
  inr, subst, length-append, length-take, length-drop, length-replicate, get_or-append_replicate,
}
use serix.Loader.{
  ProgramHeader, LoadableSegment, loaded, refused, panics, resize, segment_flags, load_segment,
}

-- A segment that holds what its header describes: the bytes of the file, all of them within it, then
-- zeros, as many as the memory size.
pub record Faithful (file : List ℕ) (ph : ProgramHeader) (s : LoadableSegment) : Type 0 where
  pub within : ph.p_offset + ph.p_filesz ≤ length file
  pub address : s.virtual_address ≡ ph.p_vaddr
  pub permissions : s.flags ≡ segment_flags ph.p_flags
  pub memory_size : length s.bytes ≡ ph.p_memsz
  pub size_told : s.size ≡ ph.p_memsz
  pub content :
      (k : ℕ)
      → get_or s.bytes k 0
        ≡ (if ltb k ph.p_filesz && ltb k ph.p_memsz then get_or file (ph.p_offset + k) 0 else 0)

get_or-take :
    (n k : ℕ) (xs : List ℕ) → get_or (take n xs) k 0 ≡ (if ltb k n then get_or xs k 0 else 0)
get_or-take zero k xs = ground arith
get_or-take (suc n) k [] = ground arith
get_or-take (suc n) zero (x ∷ xs) = ground arith
get_or-take (suc n) (suc k) (x ∷ xs) = ground (arith, get_or-take n k xs)

get_or-drop : (n k : ℕ) (xs : List ℕ) → get_or (drop n xs) k 0 ≡ get_or xs (n + k) 0
get_or-drop zero k xs = ap (λ i. get_or xs i 0) (omega arith)
get_or-drop (suc n) k [] = refl
get_or-drop (suc n) k (x ∷ xs) =
    let e : suc n + k ≡ suc (n + k) = omega arith in
    get_or-drop n k xs ∙ ap (λ i. get_or (x ∷ xs) i 0) (sym e)

length-resize : (n : ℕ) (xs : List ℕ) → length (resize n xs) ≡ n
unfolding resize
length-resize n xs = omega (
  arith,
  length-append (take n xs) (replicate (n - length xs) 0),
  length-take n xs,
  length-replicate {A = ℕ} (n - length xs) 0,
)

get_or-resize :
    (n k : ℕ) (xs : List ℕ) → get_or (resize n xs) k 0 ≡ (if ltb k n then get_or xs k 0 else 0)
unfolding resize
get_or-resize n k xs = get_or-append_replicate (take n xs) (n - length xs) k 0 ∙ get_or-take n k xs

pub loaded_inj : {A : Type 0} {a b : A} → loaded a ≡ loaded b → a ≡ b
loaded_inj {a = a} h = ap (λ o. elim o [ loaded b ↦ b | refused r ↦ a | panics ↦ a ]) h

-- The bytes copied out of the file.
abbrev copied : List ℕ → ProgramHeader → List ℕ
copied file ph = slice ph.p_offset ((ph.p_offset + ph.p_filesz) % 2 ^ 64 - ph.p_offset) file

abbrev segment_of : List ℕ → ProgramHeader → LoadableSegment
segment_of file ph = record {
  virtual_address = ph.p_vaddr;
  size = ph.p_memsz;
  flags = segment_flags ph.p_flags;
  bytes =
      resize ((length (copied file ph) + (ph.p_memsz + 2 ^ 64 - ph.p_filesz) % 2 ^ 64) % 2 ^ 64)
        (copied file ph);
}

segment_of-Faithful :
    (file : List ℕ) (ph : ProgramHeader)
    → ph.p_offset < 2 ^ 64
    → ph.p_filesz < 2 ^ 64
    → (ph.p_offset + ph.p_filesz) % 2 ^ 64 ≤ length file
    → ph.p_memsz < 2 ^ 63
    → ph.p_offset ≤ (ph.p_offset + ph.p_filesz) % 2 ^ 64
    → Faithful file ph (segment_of file ph)
segment_of-Faithful file ph ho hf hl hm hs =
    let e : (ph.p_offset + ph.p_filesz) % 2 ^ 64 ≡ ph.p_offset + ph.p_filesz =
      omega (arith, ho, hf, hs) in
    let n : (ph.p_offset + ph.p_filesz) % 2 ^ 64 - ph.p_offset ≡ ph.p_filesz = omega (arith, e) in
    let c : copied file ph ≡ slice ph.p_offset ph.p_filesz file =
      ap (λ k. slice ph.p_offset k file) n in
    let l : length (copied file ph) ≡ ph.p_filesz = omega (
      arith,
      ap length c,
      length-take ph.p_filesz (drop ph.p_offset file),
      length-drop ph.p_offset file,
      hl,
      e,
    ) in
    let m : (length (copied file ph) + (ph.p_memsz + 2 ^ 64 - ph.p_filesz) % 2 ^ 64) % 2 ^ 64
        ≡ ph.p_memsz =
      omega (arith, l, hm, hf) in
    record {
      within = omega (arith, hl, e);
      address = refl;
      permissions = refl;
      memory_size = length-resize _ (copied file ph) ∙ m;
      size_told = refl;
      content = λ k.
          let r =
            get_or-resize
              ((length (copied file ph) + (ph.p_memsz + 2 ^ 64 - ph.p_filesz) % 2 ^ 64) % 2 ^ 64) k
              (copied file ph) in
          let t = ap (λ xs. get_or xs k 0) c ∙ get_or-take ph.p_filesz k (drop ph.p_offset file) in
          let d = get_or-drop ph.p_offset k file in ground (arith, r, m, t, d);
    }

pub load_segment-Faithful :
    (canonical : ℕ → Bool) (file : List ℕ) (ph : ProgramHeader) (s : LoadableSegment)
    → ph.p_offset < 2 ^ 64
    → ph.p_filesz < 2 ^ 64
    → load_segment canonical file ph ≡ loaded s
    → Faithful file ph s
unfolding load_segment
load_segment-Faithful canonical file ph s ho hf h =
    let end = (ph.p_offset + ph.p_filesz) % 2 ^ 64 in
    elim (Bool-cases (ltb (length file) end)) [
      | inl a ↦ absurd (ground (arith, h, a))
      | inr a ↦ elim (Bool-cases (leb (2 ^ 63) ph.p_memsz)) [
        | inl b ↦ absurd (ground (arith, h, a, b))
        | inr b ↦ elim (Bool-cases (ltb end ph.p_offset)) [
          | inl c ↦ absurd (ground (arith, h, a, b, c))
          | inr c ↦ elim (Bool-cases (canonical ph.p_vaddr)) [
            | inr d ↦ absurd (ground (arith, h, a, b, c, d))
            | inl d ↦
                let g : loaded (segment_of file ph) ≡ loaded s =
                  rw (load_segment, a, b, c, d) at h in
                let f =
                  segment_of-Faithful file ph ho hf (ground (arith, a)) (ground (arith, b))
                    (ground (arith, c)) in
                subst (Faithful file ph) (loaded_inj g) f
          ]
        ]
      ]
    ]
