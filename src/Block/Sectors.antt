-- ===== src/Block/Sectors.antt =====
-- Sectors written and read back.
use serix.Base.{
  ℕ, zero, suc, ◌+◌, ◌*◌, ◌≤◌, ◌<◌, ◌≡◌, ◌⊎◌, inl, refl, sym, ap, ap₂, ◌∙◌, false, List, [], ◌∷◌,
  ◌++◌, arith, ◌==◌, length, take, drop, length-take, length-drop, length-append, take-append-drop,
}
use serix.Block.{
  BlockDev, read_sector, write_sector, sector_or_zeros, read_sectors, write_sectors, Sized, Works,
}

pub write_sector-Works :
    (dev : BlockDev) (s : ℕ) (buf : List ℕ) → Works dev → Works (write_sector dev s buf).1
unfolding write_sector
write_sector-Works dev s buf w =
    ((λ k. let r = w.0 k in ground (arith, r)), (λ k. let r = w.1 k in ground (arith, r)))

pub write_sectors-Works :
    (dev : BlockDev) (s n : ℕ) (buf : List ℕ) → Works dev → Works (write_sectors dev s n buf)
unfolding write_sectors
write_sectors-Works dev s zero buf w = w
write_sectors-Works dev s (suc n) buf w =
    write_sectors-Works (write_sector dev s (take 512 buf)).1 (s + 1) n (drop 512 buf)
      (write_sector-Works dev s (take 512 buf) w)

pub write_sector-here :
    (dev : BlockDev) (s : ℕ) (buf : List ℕ) → Works dev → (write_sector dev s buf).1.sectors s ≡ buf
unfolding write_sector
write_sector-here dev s buf w = let r = w.1 s in ground (arith, r)

pub write_sector-beside :
    (dev : BlockDev) (s k : ℕ) (buf : List ℕ)
    → (k == s) ≡ false
    → (write_sector dev s buf).1.sectors k ≡ dev.sectors k
unfolding write_sector
write_sector-beside dev s k buf h = ground (arith, h)

pub write_sectors-outside :
    (dev : BlockDev) (s n k : ℕ) (buf : List ℕ)
    → (k < s) ⊎ (s + n ≤ k)
    → (write_sectors dev s n buf).sectors k ≡ dev.sectors k
unfolding write_sectors
write_sectors-outside dev s zero k buf h = refl
write_sectors-outside dev s (suc n) k buf h =
    write_sectors-outside (write_sector dev s (take 512 buf)).1 (s + 1) n k (drop 512 buf)
      (omega (arith, h))
    ∙ write_sector-beside dev s k (take 512 buf) (ground (arith, h))

pub sector_or_zeros-Works :
    (dev : BlockDev) (s : ℕ) → Works dev → sector_or_zeros dev s ≡ dev.sectors s
unfolding sector_or_zeros read_sector
sector_or_zeros-Works dev s w = let r = w.0 s in ground (arith, r)

pub write_sector-Sized :
    (dev : BlockDev) (s : ℕ) (buf : List ℕ)
    → Sized dev
    → length buf ≡ 512
    → Sized (write_sector dev s buf).1
unfolding write_sector
write_sector-Sized dev s buf z l k = let r = z k in ground (arith, r, l)

pub write_sectors-Sized :
    (dev : BlockDev) (s n : ℕ) (buf : List ℕ)
    → Sized dev
    → length buf ≡ 512 * n
    → Sized (write_sectors dev s n buf)
unfolding write_sectors
write_sectors-Sized dev s zero buf z l = z
write_sectors-Sized dev s (suc n) buf z l =
    let t = length-take 512 buf in
    let d = length-drop 512 buf in
    write_sectors-Sized (write_sector dev s (take 512 buf)).1 (s + 1) n (drop 512 buf)
      (write_sector-Sized dev s (take 512 buf) z (omega (arith, t, l))) (omega (arith, d, l))

pub length-read_sectors :
    (dev : BlockDev) (s n : ℕ) → Works dev → Sized dev → length (read_sectors dev s n) ≡ 512 * n
unfolding read_sectors
length-read_sectors dev s zero w z = omega arith
length-read_sectors dev s (suc n) w z =
    let ih = length-read_sectors dev (s + 1) n w z in
    let a = length-append (sector_or_zeros dev s) (read_sectors dev (s + 1) n) in
    let e = ap length (sector_or_zeros-Works dev s w) in let q = z s in omega (arith, ih, a, e, q)

-- Reading looks only at the sectors of its range.
pub read_sectors-same :
    (dev dev' : BlockDev) (s n : ℕ)
    → Works dev
    → Works dev'
    → ((k : ℕ) → s ≤ k → k < s + n → dev'.sectors k ≡ dev.sectors k)
    → read_sectors dev' s n ≡ read_sectors dev s n
unfolding read_sectors
read_sectors-same dev dev' s zero w w' h = refl
read_sectors-same dev dev' s (suc n) w w' h =
    let ih =
      read_sectors-same dev dev' (s + 1) n w w'
        (λ k a b. h k (omega (arith, a)) (omega (arith, b))) in
    let e =
      sector_or_zeros-Works dev' s w'
      ∙ h s (omega arith) (omega arith)
      ∙ sym (sector_or_zeros-Works dev s w) in
    ap₂ (◌++◌) e ih

pub read_sectors-write_sectors :
    (dev : BlockDev) (s n : ℕ) (buf : List ℕ)
    → Works dev
    → length buf ≡ 512 * n
    → read_sectors (write_sectors dev s n buf) s n ≡ buf
unfolding read_sectors write_sectors
read_sectors-write_sectors dev s zero [] w l = refl
read_sectors-write_sectors dev s zero (b ∷ bs) w l = absurd (omega (arith, l))
read_sectors-write_sectors dev s (suc n) buf w l =
    let dev2 = (write_sector dev s (take 512 buf)).1 in
    let w2 = write_sector-Works dev s (take 512 buf) w in
    let d = length-drop 512 buf in
    let ih = read_sectors-write_sectors dev2 (s + 1) n (drop 512 buf) w2 (omega (arith, d, l)) in
    let out = write_sectors-outside dev2 (s + 1) n s (drop 512 buf) (inl (omega arith)) in
    let here = write_sector-here dev s (take 512 buf) w in
    let all = write_sectors-Works dev2 (s + 1) n (drop 512 buf) w2 in
    ap₂ (◌++◌)
      (sector_or_zeros-Works (write_sectors dev2 (s + 1) n (drop 512 buf)) s all ∙ out ∙ here) ih
    ∙ take-append-drop 512 buf
