-- ===== src/Circular.antt =====
-- Arithmetic of a circular buffer, shared by the pipe and the keyboard: `store` and `fetch` are the
-- copying loops, with the index wrapped at the capacity.
use native.Mathlib.Nat.{mod-add-mod, mod-eq_of_lt, mod-eq-sub-mod}
use serix.Base.{
  ℕ, zero, suc, ◌+◌, ◌-◌, ◌%◌, ◌≤◌, ◌<◌, ◌≡◌, ◌≢◌, refl, ap, ap₂, ◌∙◌, List, [], ◌∷◌, ◌++◌, arith,
  length, get_or, set, length-set, get_or-set_self, get_or-set_ne, append_assoc, append-nil, sym,
  dec_lt,
}

-- `for i in i.. { buf[(wp + i) % sz] = src[i] }`
unfoldable pub store : ℕ → ℕ → ℕ → List ℕ → List ℕ → List ℕ
store sz wp i [] buf = buf
store sz wp i (b ∷ src) buf = store sz wp (i + 1) src (set buf ((wp + i) % sz) b)

-- `n` rounds of `buf[(rp + i) % sz]`, from round `i` on
unfoldable pub fetch : ℕ → ℕ → ℕ → ℕ → List ℕ → List ℕ
fetch sz rp i zero buf = []
fetch sz rp i (suc n) buf = get_or buf ((rp + i) % sz) 0 ∷ fetch sz rp (i + 1) n buf

pub length-store : (sz wp i : ℕ) (src buf : List ℕ) → length (store sz wp i src buf) ≡ length buf
unfolding store
length-store sz wp i [] buf = refl
length-store sz wp i (b ∷ src) buf =
    length-store sz wp (i + 1) src (set buf ((wp + i) % sz) b) ∙ length-set buf ((wp + i) % sz) b

pub length-fetch : (sz rp i n : ℕ) (buf : List ℕ) → length (fetch sz rp i n buf) ≡ n
unfolding fetch
length-fetch sz rp i zero buf = refl
length-fetch sz rp i (suc n) buf = ap suc (length-fetch sz rp (i + 1) n buf)

-- Reading `a + b` bytes is reading `a` and then `b`.
pub fetch-add :
    (sz rp i a b : ℕ) (buf : List ℕ)
    → fetch sz rp i (a + b) buf ≡ fetch sz rp i a buf ++ fetch sz rp (i + a) b buf
unfolding fetch
fetch-add sz rp i zero b buf = ap₂ (λ x y. fetch sz rp x y buf) (omega arith) (omega arith)
fetch-add sz rp i (suc a) b buf =
    let e : suc a + b ≡ suc (a + b) = omega arith in
    let k : i + 1 + a ≡ i + suc a = omega arith in
    ap (λ n. fetch sz rp i n buf) e
    ∙ ap (◌∷◌ (get_or buf ((rp + i) % sz) 0)) (
        fetch-add sz rp (i + 1) a b buf
        ∙ ap (λ j. fetch sz rp (i + 1) a buf ++ fetch sz rp j b buf) k)

-- Moving the read position over `a` bytes skips these.
pub fetch-shift :
    (sz rp a i n : ℕ) (buf : List ℕ) → fetch sz ((rp + a) % sz) i n buf ≡ fetch sz rp (a + i) n buf
unfolding fetch
fetch-shift sz rp a i zero buf = refl
fetch-shift sz rp a i (suc n) buf =
    ap₂ ◌∷◌ (ap (λ k. get_or buf k 0) (mod-add-mod (rp + a) sz i ∙ ap (λ k. k % sz) (omega arith)))
      (fetch-shift sz rp a (i + 1) n buf ∙ ap (λ k. fetch sz rp k n buf) (omega arith))

-- Within one round of the buffer two positions differ.
mod_ne_base : (sz r k : ℕ) → r < sz → suc k < sz → (r + suc k) % sz ≢ r
mod_ne_base sz r k hr hk = elim (dec_lt (r + suc k) sz) [
  | yes below ↦ omega (arith, mod-eq_of_lt below)
  | no over ↦ omega (
    arith,
    mod-eq-sub-mod {n = r + suc k} {m = sz} (omega arith),
    mod-eq_of_lt {n = r + suc k - sz} {m = sz} (omega arith),
  )
]

pub mod_ne : (sz a k : ℕ) → suc k < sz → (a + suc k) % sz ≢ a % sz
mod_ne sz a k hk e = mod_ne_base sz (a % sz) k (omega arith) hk (mod-add-mod a sz (suc k) ∙ e)

-- A write just past the bytes read extends them by the byte written.
pub fetch-set :
    (sz rp i n x : ℕ) (buf : List ℕ)
    → sz ≤ length buf
    → n < sz
    → fetch sz rp i (suc n) (set buf ((rp + (i + n)) % sz) x) ≡ fetch sz rp i n buf ++ x ∷ []
unfolding fetch
fetch-set sz rp i zero x buf hs hn =
    ap (λ y. y ∷ [])
      (ap (λ k. get_or (set buf ((rp + (i + 0)) % sz) x) k 0)
          (ap (λ j. (rp + j) % sz) (omega arith))
        ∙ get_or-set_self buf ((rp + (i + 0)) % sz) x 0 (omega arith))
fetch-set sz rp i (suc n) x buf hs hn =
    ap₂ ◌∷◌
      (get_or-set_ne buf ((rp + (i + suc n)) % sz) ((rp + i) % sz) x 0
        (λ e. mod_ne sz (rp + i) n hn (ap (λ k. k % sz) (omega arith) ∙ e)))
      (ap (λ j. fetch sz rp (i + 1) (suc n) (set buf ((rp + j) % sz) x)) (omega arith)
        ∙ fetch-set sz rp (i + 1) n x buf hs (omega arith))

-- The storing loop appends its source to what was there.
pub fetch-store :
    (sz rp c i : ℕ) (src buf : List ℕ)
    → sz ≤ length buf
    → c + i + length src ≤ sz
    → fetch sz rp 0 (c + i + length src) (store sz ((rp + c) % sz) i src buf)
      ≡ fetch sz rp 0 (c + i) buf ++ src
unfolding store
fetch-store sz rp c i [] buf hs hn =
    ap (λ k. fetch sz rp 0 k buf) (omega arith) ∙ sym (append-nil _)
fetch-store sz rp c i (b ∷ src) buf hs hn =
    let at = ((rp + c) % sz + i) % sz in
    let place : at ≡ (rp + (0 + (c + i))) % sz =
      mod-add-mod (rp + c) sz i ∙ ap (λ k. k % sz) (omega arith) in
    ap (λ k. fetch sz rp 0 k (store sz ((rp + c) % sz) (i + 1) src (set buf at b))) (omega arith)
    ∙ fetch-store sz rp c (i + 1) src (set buf at b) (rw (length-set buf at b) hs) (omega arith)
    ∙ ap (λ xs. xs ++ src)
        (ap₂ (λ k j. fetch sz rp 0 k (set buf j b)) (omega arith) place
          ∙ fetch-set sz rp 0 (c + i) b buf hs (omega arith))
    ∙ append_assoc _ (b ∷ []) src
