-- ===== src/Pipe/Returns.antt =====
-- A blocked reader of a pipe of kernel/src/pipe.rs that a write or a close wakes comes back from `read`.
use serix.Base.{
  ℕ, ◌<◌, ◌≡◌, ◌≢◌, refl, ◌∙◌, ◌⊎◌, inl, inr, Bool, true, false, ◌||◌, List, [], ◌∷◌, ◌++◌, Option,
  some, none, arith, Bool-cases,
}
use serix.Pipe.{
  PipeInner, Action, writes, drops_writer, reads, elem, join, act, acts, asleep, read, read_round,
  write, drop_write_end, Round, returns, blocks, settle,
}

-- A reader that looks now gets bytes or the end of file.
abbrev Ready : PipeInner → Type 0
Ready p = (0 < p.count) ⊎ (p.write_closed ≡ true)

-- A write of at least one byte, or the closing of the write end.
unfoldable pub effective : Action → Bool
effective (writes (b ∷ src)) = true
effective drops_writer = true
effective a = false

-- No other reader reads.
unfoldable pub no_reads : List Action → Bool
no_reads [] = true
no_reads (reads cur dst ∷ as') = false
no_reads (a ∷ as') = no_reads as'

elem-append : (t : ℕ) (xs ys : List ℕ) → elem t (xs ++ ys) ≡ (elem t xs || elem t ys)
elem-append t [] ys = refl
elem-append t (x ∷ xs) ys = ground (arith, elem-append t xs ys)

elem-join : (t : ℕ) (cur : Option ℕ) (ts : List ℕ) → elem t ts ≡ true → elem t (join cur ts) ≡ true
elem-join t none ts h = h
elem-join t (some u) ts h = ground (arith, elem-append t ts (u ∷ []), h)

-- A round leaves the ends as they are, keeps those who wait, and adds the reader when it blocks.
read_round-open :
    (p : PipeInner) (cur : Option ℕ) (dst : List ℕ)
    → (read_round p cur dst).0.read_closed ≡ p.read_closed
unfolding read_round
read_round-open p cur dst = ground arith

read_round-keeps :
    (p : PipeInner) (cur : Option ℕ) (dst : List ℕ) (t : ℕ)
    → elem t p.waiters ≡ true
    → elem t (read_round p cur dst).0.waiters ≡ true
unfolding read_round
read_round-keeps p cur dst t h = ground (arith, elem-join t cur p.waiters h)

read_round-waits :
    (p : PipeInner) (t : ℕ) (dst : List ℕ)
    → (read_round p (some t) dst).1 ≡ blocks
    → elem t (read_round p (some t) dst).0.waiters ≡ true
unfolding read_round
read_round-waits p t dst h = ground (arith, elem-append t p.waiters (t ∷ []))

read_round_of_Ready :
    (p : PipeInner) (cur : Option ℕ) (dst : List ℕ) → Ready p → (read_round p cur dst).1 ≢ blocks
unfolding read_round
read_round_of_Ready p cur dst h = ground arith

-- A task that waits is woken or still waits.
act-Kept :
    (p : PipeInner) (a : Action) (t : ℕ)
    → elem t p.waiters ≡ true
    → (elem t (act p a).1 ≡ true) ⊎ (elem t (act p a).0.waiters ≡ true)
unfolding act write drop_write_end
act-Kept p (writes src) t h = ground arith
act-Kept p drops_writer t h = inl h
act-Kept p (reads cur dst) t h = inr (read_round-keeps p cur dst t h)

act-open : (p : PipeInner) (a : Action) → (act p a).0.read_closed ≡ p.read_closed
unfolding act write drop_write_end
act-open p (writes src) = ground arith
act-open p drops_writer = refl
act-open p (reads cur dst) = read_round-open p cur dst

acts-open : (p : PipeInner) (as' : List Action) → (acts p as').0.read_closed ≡ p.read_closed
unfolding acts
acts-open p [] = refl
acts-open p (a ∷ as') = acts-open (act p a).0 as' ∙ act-open p a

acts-Kept :
    (p : PipeInner) (as' : List Action) (t : ℕ)
    → elem t p.waiters ≡ true
    → (elem t (acts p as').1 ≡ true) ⊎ (elem t (acts p as').0.waiters ≡ true)
unfolding acts
acts-Kept p [] t h = inr h
acts-Kept p (a ∷ as') t h =
    let e = elem-append t (act p a).1 (acts (act p a).0 as').1 in
    elim (act-Kept p a t h) [
      | inl now ↦ inl (ground (arith, e, now))
      | inr k ↦ elim (acts-Kept (act p a).0 as' t k) [
        | inl later ↦ inl (ground (arith, e, later))
        | inr kept ↦ inr kept
      ]
    ]

-- An effective action wakes those who wait and leaves the pipe ready.
effective-wakes :
    (p : PipeInner) (a : Action) (t : ℕ)
    → p.read_closed ≡ false
    → effective a ≡ true
    → elem t p.waiters ≡ true
    → elem t (act p a).1 ≡ true
unfolding act effective write drop_write_end
effective-wakes p (writes []) t o e h = cc
effective-wakes p (writes (b ∷ src)) t o e h = ground arith
effective-wakes p drops_writer t o e h = h
effective-wakes p (reads cur dst) t o e h = cc

effective-Ready :
    (p : PipeInner) (a : Action) → p.read_closed ≡ false → effective a ≡ true → Ready (act p a).0
unfolding act effective write drop_write_end
effective-Ready p (writes []) o e = cc
effective-Ready p (writes (b ∷ src)) o e = ground arith
effective-Ready p drops_writer o e = inr refl
effective-Ready p (reads cur dst) o e = cc

acts-Ready :
    (p : PipeInner) (as' : List Action) → no_reads as' ≡ true → Ready p → Ready (acts p as').0
unfolding acts no_reads act write drop_write_end
acts-Ready p [] n h = h
acts-Ready p (writes src ∷ as') n h = acts-Ready (act p (writes src)).0 as' n (ground arith)
acts-Ready p (drops_writer ∷ as') n h = acts-Ready (act p drops_writer).0 as' n (inr refl)
acts-Ready p (reads cur dst ∷ as') n h = cc

module _ (t : ℕ) (a : Action) (effect : effective a ≡ true) (post : List Action) where
  batch-wakes :
      (p : PipeInner) (pre : List Action)
      → p.read_closed ≡ false
      → elem t p.waiters ≡ true
      → elem t (acts p (pre ++ a ∷ post)).1 ≡ true
  unfolding acts
  batch-wakes p [] o h =
      let e = elem-append t (act p a).1 (acts (act p a).0 post).1 in
      let now = effective-wakes p a t o effect h in ground (arith, e, now)
  batch-wakes p (b ∷ pre) o h =
      let e = elem-append t (act p b).1 (acts (act p b).0 (pre ++ a ∷ post)).1 in
      elim (act-Kept p b t h) [
        | inl now ↦ ground (arith, e, now)
        | inr k ↦
            let later = batch-wakes (act p b).0 pre (act-open p b ∙ o) k in ground (arith, e, later)
      ]

  batch-Ready :
      (p : PipeInner) (pre : List Action)
      → p.read_closed ≡ false
      → no_reads post ≡ true
      → Ready (acts p (pre ++ a ∷ post)).0
  unfolding acts
  batch-Ready p [] o n = acts-Ready (act p a).0 post n (effective-Ready p a o effect)
  batch-Ready p (b ∷ pre) o n = batch-Ready (act p b).0 pre (act-open p b ∙ o) n

-- `read` comes back with a buffer and a count.
abbrev pub Finishes : Option (PipeInner × List ℕ × ℕ) → Type 0
Finishes r = (out : PipeInner × List ℕ × ℕ) × (r ≡ some out)

settle-Finishes :
    (s : PipeInner × Round) (retry : PipeInner → Option (PipeInner × List ℕ × ℕ))
    → (s.1 ≡ blocks → Finishes (retry s.0))
    → Finishes (settle s retry)
settle-Finishes (p, returns dst n) retry h = ((p, dst, n), refl)
settle-Finishes (p, blocks) retry h = h refl

-- A task that waits comes back.
asleep_returns :
    (p : PipeInner) (t : ℕ) (dst : List ℕ) (before : List (List Action)) (pre : List Action)
    (a : Action) (post : List Action) (after : List (List Action))
    → p.read_closed ≡ false
    → effective a ≡ true
    → no_reads post ≡ true
    → elem t p.waiters ≡ true
    → Finishes (asleep p t dst (before ++ (pre ++ a ∷ post) ∷ after))
unfolding asleep
asleep_returns p t dst [] pre a post after o e n h =
    let p' = (acts p (pre ++ a ∷ post)).0 in
    let ready = read_round_of_Ready p' (some t) dst (batch-Ready t a e post p pre o n) in
    rw (batch-wakes t a e post p pre o h)
      (settle-Finishes (read_round p' (some t) dst) _ (λ b. absurd (ready b)))
asleep_returns p t dst (b ∷ before) pre a post after o e n h =
    let p' = (acts p b).0 in
    let s = read_round p' (some t) dst in
    let o' = acts-open p b ∙ o in
    elim (Bool-cases (elem t (acts p b).1)) [
      | inl y ↦ rw y (
          settle-Finishes s _ (λ q.
            asleep_returns s.0 t dst before pre a post after (read_round-open p' (some t) dst ∙ o')
              e n (read_round-waits p' t dst q)))
      | inr y ↦ elim (acts-Kept p b t h) [
        | inl z ↦ absurd (ground (arith, y, z))
        | inr kept ↦ rw y (asleep_returns p' t dst before pre a post after o' e n kept)
      ]
    ]

-- A `read` on an open read end comes back, whatever the other tasks write, close and read in the `before`
-- batches, once a batch has a write of at least one byte or the closing of the write end after which no
-- other reader reads in this batch: if the reader still sleeps then, this action wakes it.
pub read_returns :
    (p : PipeInner) (t : ℕ) (dst : List ℕ) (before : List (List Action)) (pre : List Action)
    (a : Action) (post : List Action) (after : List (List Action))
    → p.read_closed ≡ false
    → effective a ≡ true
    → no_reads post ≡ true
    → Finishes (read p t dst (before ++ (pre ++ a ∷ post) ∷ after))
unfolding read
read_returns p t dst before pre a post after o e n =
    let s = read_round p (some t) dst in
    settle-Finishes s _ (λ q.
      asleep_returns s.0 t dst before pre a post after (read_round-open p (some t) dst ∙ o) e n
        (read_round-waits p t dst q))
