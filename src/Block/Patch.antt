-- ===== src/Block/Patch.antt =====
-- Writes of BlockDevINode in fs/src/lib.rs, byte by byte.
use serix.Base.{
  ℕ, zero, suc, ◌+◌, ◌-◌, ◌/◌, ◌%◌, min, ◌≤◌, ◌<◌, ◌≡◌, ◌⊎◌, refl, sym, ap, ◌∙◌, true, false, not,
  ◌&&◌, ◌||◌, List, [], ◌∷◌, some, arith, inl, inr, if◌then◌else◌, ◌==◌, ltb, leb, length, get_or,
  take, drop, splice, replicate, length-take, length-drop, length-splice, length-replicate,
  Bool-cases, dec_lt, dec_le, ℕ_discrete, get_or-splice_in, get_or-splice_before,
  get_or-splice_after,
}
use serix.Block.{BlockDev, read_sector, write_sector, Sized, Works}
use serix.Block.Sectors.{write_sector-Works, write_sector-Sized}
use serix.Block.RawNode.{fill, write_loop, write}
use serix.Block.Bytes.{byte_at}

-- A sector written: the bytes of the sector are those of the buffer, and the others stay.
byte_at-write_sector :
    (dev : BlockDev) (q p : ℕ) (buf : List ℕ)
    → Works dev
    → byte_at (write_sector dev q buf).1 p
      ≡ (if p / 512 == q then get_or buf (p % 512) 0 else byte_at dev p)
unfolding write_sector
byte_at-write_sector dev q p buf w = let r = w.1 q in ground (arith, r)

-- The byte at `p` when `buf` is written at `pos`.
abbrev pub put : BlockDev → ℕ → List ℕ → ℕ → ℕ
put dev pos buf p =
    if leb pos p && ltb p (pos + length buf) then get_or buf (p - pos) 0 else byte_at dev p

get_or-take : (n k : ℕ) (xs : List ℕ) → k < n → get_or (take n xs) k 0 ≡ get_or xs k 0
get_or-take zero k xs h = absurd (omega arith)
get_or-take (suc n) k [] h = refl
get_or-take (suc n) zero (x ∷ xs) h = refl
get_or-take (suc n) (suc k) (x ∷ xs) h = get_or-take n k xs (omega arith)

get_or-drop : (n k : ℕ) (xs : List ℕ) → get_or (drop n xs) k 0 ≡ get_or xs (n + k) 0
get_or-drop zero k xs = ap (λ i. get_or xs i 0) (omega arith)
get_or-drop (suc n) k [] = refl
get_or-drop (suc n) k (x ∷ xs) =
    let e : suc (n + k) ≡ suc n + k = omega arith in
    get_or-drop n k xs ∙ ap (λ i. get_or (x ∷ xs) i 0) e

past : (xs : List ℕ) (k : ℕ) → length xs ≤ k → get_or xs k 0 ≡ 0
past [] k h = refl
past (x ∷ xs) zero h = absurd (omega arith)
past (x ∷ xs) (suc k) h = past xs k (omega arith)

get_or-past : (xs : List ℕ) (k : ℕ) → length xs ≡ 512 → 512 ≤ k → get_or xs k 0 ≡ 0
get_or-past xs k l h = past xs k (omega (arith, l, h))

-- One round of a write, on the byte at `p`.
round-byte :
    (dev : BlockDev) (pos p copy : ℕ) (base buf : List ℕ)
    → Works dev
    → copy ≡ min (512 - pos % 512) (length buf)
    → length base ≡ 512
    → ((k : ℕ)
        → (k < pos % 512) ⊎ (pos % 512 + copy ≤ k)
        → get_or base k 0 ≡ get_or (dev.sectors (pos / 512)) k 0)
    → byte_at (write_sector dev (pos / 512) (splice (pos % 512) (take copy buf) base)).1 p
      ≡ put dev pos (take copy buf) p
round-byte dev pos p copy base buf w e l same =
    let k = p % 512 in
    let src = take copy buf in
    let b = byte_at-write_sector dev (pos / 512) p (splice (pos % 512) src base) w in
    let t = length-take copy buf in
    elim (ℕ_discrete (p / 512) (pos / 512)) [
      | yes q ↦
          let here = ap (λ s. get_or (dev.sectors s) k 0) (sym q) in
          let hit : (p / 512 == pos / 512) ≡ true = ground (arith, q) in
          elim (dec_lt k (pos % 512)) [
            | yes lo ↦
                let v = get_or-splice_before (pos % 512) src base k 0 lo ∙ same k (inl lo) ∙ here in
                let out : (leb pos p && ltb p (pos + length src)) ≡ false = ground (arith, q, lo) in
                b ∙ rw (hit, out) v
            | no lo ↦ elim (dec_le (pos % 512 + copy) k) [
              | yes hi ↦
                  let v =
                    get_or-splice_after (pos % 512) src base k 0 (omega (arith, t, e, hi))
                    ∙ same k (inr hi)
                    ∙ here in
                  let out : (leb pos p && ltb p (pos + length src)) ≡ false =
                    ground (arith, q, hi, t, e) in
                  b ∙ rw (hit, out) v
              | no hi ↦
                  let m : k - pos % 512 ≡ p - pos = omega (arith, q, lo) in
                  let v =
                    get_or-splice_in (pos % 512) src base k 0 (omega (arith, l)) (omega (arith, lo))
                      (omega (arith, t, e, hi))
                    ∙ ap (λ x. get_or src x 0) m in
                  let ins : (leb pos p && ltb p (pos + length src)) ≡ true =
                    ground (arith, q, lo, hi, t, e) in
                  b ∙ rw (hit, ins) v
            ]
          ]
      | no n ↦ b ∙ ground (arith, n, t, e)
    ]

-- The sector buffer of a round agrees with the sector wherever the round does not write.
fill-same :
    (dev : BlockDev) (pos : ℕ) (buf sector_buf : List ℕ)
    → Works dev
    → Sized dev
    → length sector_buf ≡ 512
    → 0 < length buf
    → (base : List ℕ) × (fill dev pos (length buf) sector_buf ≡ some base)
      × (length base ≡ 512)
      × ((k : ℕ)
          → (k < pos % 512) ⊎ (pos % 512 + min (512 - pos % 512) (length buf) ≤ k)
          → get_or base k 0 ≡ get_or (dev.sectors (pos / 512)) k 0)
unfolding fill read_sector
fill-same dev pos buf sector_buf w z l h =
    let r = w.0 (pos / 512) in
    elim (Bool-cases (not (pos % 512 == 0) || ltb (length buf) 512)) [
      | inl c ↦ (dev.sectors (pos / 512), rw (c, r) refl, z (pos / 512), λ k s. refl)
      | inr c ↦ (
        sector_buf,
        rw c refl,
        l,
        λ k s.
            get_or-past sector_buf k l (ground (arith, c, s))
            ∙ sym (get_or-past (dev.sectors (pos / 512)) k (z (pos / 512)) (ground (arith, c, s))),
      )
    ]

put-join :
    (dev dev1 : BlockDev) (pos copy : ℕ) (buf : List ℕ) (p : ℕ)
    → copy ≤ length buf
    → byte_at dev1 p ≡ put dev pos (take copy buf) p
    → put dev1 (pos + copy) (drop copy buf) p ≡ put dev pos buf p
put-join dev dev1 pos copy buf p h e =
    let t = length-take copy buf in
    let d = length-drop copy buf in
    let gd = get_or-drop copy (p - (pos + copy)) buf in
    elim (dec_lt p (pos + copy)) [
      | yes lo ↦ elim (dec_le pos p) [
        | yes in_ ↦
            let gt = get_or-take copy (p - pos) buf (omega (arith, lo, in_)) in
            ground (arith, lo, in_, t, d, e, gt, h)
        | no out ↦ ground (arith, lo, out, t, d, e, h)
      ]
      | no hi ↦
          let i : copy + (p - (pos + copy)) ≡ p - pos = omega (arith, hi) in
          let g = gd ∙ ap (λ x. get_or buf x 0) i in ground (arith, hi, t, d, e, g, h)
    ]

write_loop-step :
    (fuel : ℕ) (dev : BlockDev) (sector_buf base : List ℕ) (pos : ℕ) (buf : List ℕ) (done : ℕ)
    → Works dev
    → 0 < length buf
    → fill dev pos (length buf) sector_buf ≡ some base
    → write_loop (suc fuel) dev sector_buf pos buf done
      ≡ write_loop fuel
          (write_sector dev
            (pos / 512)
            (splice (pos % 512) (take (min (512 - pos % 512) (length buf)) buf) base)).1
          (splice (pos % 512) (take (min (512 - pos % 512) (length buf)) buf) base)
          (pos + min (512 - pos % 512) (length buf))
          (drop (min (512 - pos % 512) (length buf)) buf)
          (done + min (512 - pos % 512) (length buf))
unfolding write_loop write_sector
write_loop-step fuel dev sector_buf base pos buf done w h f =
    let nz : (length buf == 0) ≡ false = ground (arith, h) in
    let r = w.1 (pos / 512) in rw (nz, f, r) refl

write_loop-put :
    (fuel : ℕ) (dev : BlockDev) (sector_buf : List ℕ) (pos : ℕ) (buf : List ℕ) (done p : ℕ)
    → length buf ≤ fuel
    → Works dev
    → Sized dev
    → length sector_buf ≡ 512
    → ((write_loop fuel dev sector_buf pos buf done).0 ≡ done + length buf)
      × (byte_at (write_loop fuel dev sector_buf pos buf done).1 p ≡ put dev pos buf p)
write_loop-put zero dev sector_buf pos [] done p h w z l =
    (unfold write_loop in omega arith, unfold write_loop in ground arith)
write_loop-put zero dev sector_buf pos (b ∷ bs) done p h w z l = absurd (omega (arith, h))
write_loop-put (suc fuel) dev sector_buf pos [] done p h w z l =
    (unfold write_loop in omega arith, unfold write_loop in ground arith)
write_loop-put (suc fuel) dev sector_buf pos (b ∷ bs) done p h w z l =
    let buf = b ∷ bs in
    let copy = min (512 - pos % 512) (length buf) in
    let (base, f, lb, same) = fill-same dev pos buf sector_buf w z l (omega arith) in
    let patched = splice (pos % 512) (take copy buf) base in
    let dev1 = (write_sector dev (pos / 512) patched).1 in
    let lp = length-splice (pos % 512) (take copy buf) base ∙ lb in
    let d = length-drop copy buf in
    let e = write_loop-step fuel dev sector_buf base pos buf done w (omega arith) f in
    let ih =
      write_loop-put fuel dev1 patched (pos + copy) (drop copy buf) (done + copy) p
        (omega (arith, d, h)) (write_sector-Works dev (pos / 512) patched w)
        (write_sector-Sized dev (pos / 512) patched z lp) lp in
    let first = round-byte dev pos p copy base buf w refl lb same in
    (
      ap (λ r. r.0) e ∙ ih.0 ∙ omega (arith, d),
      ap (λ r. byte_at r.1 p) e ∙ ih.1 ∙ put-join dev dev1 pos copy buf p (omega arith) first,
    )

-- On a device on which no transfer fails and whose sectors have 512 bytes, a write answers the length of
-- the buffer, and the byte at any position is then that of the buffer where the buffer was written, and
-- is as before elsewhere.
pub write-put :
    (dev : BlockDev) (offset : ℕ) (buf : List ℕ) (p : ℕ)
    → Works dev
    → Sized dev
    → ((write dev offset buf).0 ≡ length buf)
      × (byte_at (write dev offset buf).1 p ≡ put dev offset buf p)
unfolding write
write-put dev offset buf p w z =
    let r =
      write_loop-put (length buf) dev (replicate 512 0) offset buf 0 p (omega arith) w z
        (length-replicate {A = ℕ} 512 0) in
    (omega (arith, r.0), r.1)
