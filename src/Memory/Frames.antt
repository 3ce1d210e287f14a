-- ===== src/Memory/Frames.antt =====
-- `StaticBootFrameAllocator` of memory/src/heap.rs: it hands out the frames of `BOOT_FRAMES` once each.
use serix.Base.{
  ℕ, zero, suc, ◌-◌, ◌≤◌, ◌<◌, ◌≡◌, refl, sym, ap, ap₂, ◌∙◌, true, List, [], ◌∷◌, Option, none,
  some, arith, if◌then◌else◌, ltb, get_elem?, set, length, drop, take, length-set, subst,
  Bool-cases, inl, inr,
}

-- `frames` is BOOT_FRAMES: none is a slot that is empty or was taken.
pub record StaticBootFrameAllocator : Type 0 where
  pub next : ℕ
  pub limit : ℕ
  pub frames : List (Option ℕ)

pub data Outcome : Type 0 where
  frame : ℕ → Outcome
  exhausted : Outcome
  -- An index past the end of BOOT_FRAMES.
  panics : Outcome

unfoldable pub new : ℕ → List (Option ℕ) → StaticBootFrameAllocator
new frame_count fs = record { next = 0; limit = frame_count; frames = fs }

unfoldable pub at : StaticBootFrameAllocator → ℕ → List (Option ℕ) → StaticBootFrameAllocator
at a n fs = record { next = n; limit = a.limit; frames = fs }

-- The loop, on fuel.
unfoldable pub allocate_from : ℕ → StaticBootFrameAllocator → Outcome × StaticBootFrameAllocator
unfolding at
allocate_from zero a = (exhausted, a)
allocate_from (suc fuel) a =
    let rest = allocate_from fuel (at a (suc a.next) a.frames) in
    if ltb a.next a.limit
    then elim (get_elem? a.frames a.next) [
      | none ↦ (panics, a)
      | some none ↦ rest
      | some (some f) ↦ (frame f, at a (suc a.next) (set a.frames a.next none))
    ]
    else (exhausted, a)

-- Every round moves `next` by one, up to `limit`.
unfoldable pub allocate_frame : StaticBootFrameAllocator → Outcome × StaticBootFrameAllocator
allocate_frame a = allocate_from (suc (a.limit - a.next)) a

-- The frames in a list of slots, in order.
unfoldable pub present : List (Option ℕ) → List ℕ
present [] = []
present (none ∷ fs) = present fs
present (some f ∷ fs) = f ∷ present fs

-- The frames that are still to be handed out.
unfoldable pub remaining : StaticBootFrameAllocator → List ℕ
remaining a = present (drop a.next (take a.limit a.frames))

-- `n` allocations in a row.
unfoldable pub outcomes : ℕ → StaticBootFrameAllocator → List Outcome
unfolding allocate_frame
outcomes zero a = []
outcomes (suc n) a = let r = allocate_frame a in r.0 ∷ outcomes n r.1

-- What `n` requests answer when these frames are left.
unfoldable pub served : ℕ → List ℕ → List Outcome
served zero fs = []
served (suc n) [] = exhausted ∷ served n []
served (suc n) (f ∷ fs) = frame f ∷ served n fs

slot :
    (n l : ℕ) (fs : List (Option ℕ))
    → n < l
    → l ≤ length fs
    → (x : Option ℕ) × ((get_elem? fs n ≡ some x)
        × (drop n (take l fs) ≡ x ∷ drop (suc n) (take l fs)))
slot n zero fs h k = absurd (omega arith)
slot n (suc l) [] h k = absurd (omega arith)
slot zero (suc l) (x ∷ fs) h k = (x, (refl, refl))
slot (suc n) (suc l) (x ∷ fs) h k = slot n l fs (omega arith) (omega arith)

drop-take-set :
    (n l : ℕ) (fs : List (Option ℕ)) (v : Option ℕ)
    → drop (suc n) (take l (set fs n v)) ≡ drop (suc n) (take l fs)
drop-take-set n l [] v = refl
drop-take-set n zero (x ∷ fs) v = refl
drop-take-set zero (suc l) (x ∷ fs) v = refl
drop-take-set (suc n) (suc l) (x ∷ fs) v = drop-take-set n l fs v

drop-take_past : (n l : ℕ) (fs : List (Option ℕ)) → l ≤ n → drop n (take l fs) ≡ []
drop-take_past zero zero fs h = refl
drop-take_past (suc n) zero fs h = refl
drop-take_past zero (suc l) fs h = absurd (omega arith)
drop-take_past (suc n) (suc l) [] h = refl
drop-take_past (suc n) (suc l) (x ∷ fs) h = drop-take_past n l fs (omega arith)

-- An answer that hands out the first of the frames left, if there is one.
abbrev Serves : List ℕ → ℕ → ℕ → Outcome × StaticBootFrameAllocator → Type 0
Serves [] l m r =
    (r.0 ≡ exhausted) × ((remaining r.1 ≡ []) × ((r.1.limit ≡ l) × (length r.1.frames ≡ m)))
Serves (f ∷ fs) l m r =
    (r.0 ≡ frame f) × ((remaining r.1 ≡ fs) × ((r.1.limit ≡ l) × (length r.1.frames ≡ m)))

allocate_from-Serves :
    (fuel : ℕ) (a : StaticBootFrameAllocator)
    → a.limit - a.next < fuel
    → a.limit ≤ length a.frames
    → Serves (remaining a) a.limit (length a.frames) (allocate_from fuel a)
unfolding allocate_from remaining present at
allocate_from-Serves zero a h k = absurd (omega arith)
allocate_from-Serves (suc fuel) a h k = elim (Bool-cases (ltb a.next a.limit)) [
  | inr c ↦
      let q : allocate_from (suc fuel) a ≡ (exhausted, a) = rw (allocate_from, c) refl in
      let e : remaining a ≡ [] =
        ap present (drop-take_past a.next a.limit a.frames (ground (arith, c))) in
      subst (λ fs. Serves fs a.limit (length a.frames) (allocate_from (suc fuel) a)) (sym e)
        (subst (Serves [] a.limit (length a.frames)) (sym q) (refl, (e, (refl, refl))))
  | inl c ↦
      let s = slot a.next a.limit a.frames (ground (arith, c)) k in
      go s.0 s.1.0 s.1.1 c
        (allocate_from-Serves fuel (at a (suc a.next) a.frames) (ground (arith, h, c)) k)
]
  where
    go :
        (x : Option ℕ)
        → get_elem? a.frames a.next ≡ some x
        → drop a.next (take a.limit a.frames) ≡ x ∷ drop (suc a.next) (take a.limit a.frames)
        → ltb a.next a.limit ≡ true
        → Serves
            (remaining (at a (suc a.next) a.frames))
            a.limit
            (length a.frames)
            (allocate_from fuel (at a (suc a.next) a.frames))
        → Serves (remaining a) a.limit (length a.frames) (allocate_from (suc fuel) a)
    go none e d c ih =
        let b = at a (suc a.next) a.frames in
        let q : allocate_from (suc fuel) a ≡ allocate_from fuel b = rw (allocate_from, c, e) refl in
        let l : remaining a ≡ remaining b = ap present d in
        subst (λ fs. Serves fs a.limit (length a.frames) (allocate_from (suc fuel) a)) (sym l)
          (subst (Serves (remaining b) a.limit (length a.frames)) (sym q) ih)
    go (some f) e d c ih =
        let b = at a (suc a.next) (set a.frames a.next none) in
        let q : allocate_from (suc fuel) a ≡ (frame f, b) = rw (allocate_from, c, e) refl in
        let l : remaining a ≡ f ∷ present (drop (suc a.next) (take a.limit a.frames)) =
          ap present d in
        let m : remaining b ≡ present (drop (suc a.next) (take a.limit a.frames)) =
          ap present (drop-take-set a.next a.limit a.frames none) in
        subst (λ fs. Serves fs a.limit (length a.frames) (allocate_from (suc fuel) a)) (sym l)
          (subst
            (Serves (f ∷ present (drop (suc a.next) (take a.limit a.frames))) a.limit
              (length a.frames))
            (sym q) (refl, (m, (refl, length-set a.frames a.next none))))

-- For an allocator whose limit is within BOOT_FRAMES, any number of requests hands out the frames left
-- between `next` and the limit, each once and in order, and answers none from then on: the loop ends
-- and never indexes past the array.
pub outcomes-served :
    (n : ℕ) (a : StaticBootFrameAllocator)
    → a.limit ≤ length a.frames
    → outcomes n a ≡ served n (remaining a)
unfolding outcomes served allocate_frame
outcomes-served zero a k = refl
outcomes-served (suc n) a k =
    go (remaining a) (allocate_frame a)
      (allocate_from-Serves (suc (a.limit - a.next)) a (omega arith) k) (outcomes-served n)
  where
    go :
        (fs : List ℕ) (r : Outcome × StaticBootFrameAllocator)
        → Serves fs a.limit (length a.frames) r
        → ((b : StaticBootFrameAllocator)
            → b.limit ≤ length b.frames
            → outcomes n b ≡ served n (remaining b))
        → r.0 ∷ outcomes n r.1 ≡ served (suc n) fs
    go [] r h ih = ap₂ ◌∷◌ h.0 (ih r.1 (omega (arith, k, h.1.1.0, h.1.1.1)) ∙ ap (served n) h.1.0)
    go (f ∷ fs) r h ih =
        ap₂ ◌∷◌ h.0 (ih r.1 (omega (arith, k, h.1.1.0, h.1.1.1)) ∙ ap (served n) h.1.0)
