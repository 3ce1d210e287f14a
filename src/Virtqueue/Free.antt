-- ===== src/Virtqueue/Free.antt =====
-- `free_chain` returns a chain's descriptors to the free list.
use serix.Base.{
  ℕ, suc, ◌+◌, ◌%◌, ◌^◌, ◌<◌, ◌≡◌, refl, sym, ap, ◌∙◌, List, [], ◌∷◌, some, arith, length, set,
  Absent, Distinct, length-set, get_or-set_self, subst, ◌==◌, true, false,
}
use serix.Virtqueue.{Virtqueue, Buffer, at, blank, give_back, free_chain}
use serix.Virtqueue.Lists.{Linked, Free, Chained, Linked-set, Chained-set}

-- The list in front of another, in reverse.
unfoldable pub reverse_onto : List ℕ → List ℕ → List ℕ
reverse_onto [] fs = fs
reverse_onto (i ∷ is) fs = reverse_onto is (i ∷ fs)

-- No descriptor of the chain is free.
abbrev pub Apart : List ℕ → List ℕ → Type 0
Apart [] fs = Unit
Apart (i ∷ is) fs = Absent i fs × Apart is fs

Apart-cons : (i : ℕ) (is fs : List ℕ) → Absent i is → Apart is fs → Apart is (i ∷ fs)
Apart-cons i [] fs a h = tt
Apart-cons i (j ∷ is) fs a h = (((λ e. a.0 (sym e)), h.0), Apart-cons i is fs a.1 h.1)

give_back-Free :
    (i : ℕ) (q : Virtqueue) (fs : List ℕ)
    → i < length q.desc
    → Absent i fs
    → q.num_free + 1 < 2 ^ 16
    → Free q fs
    → Free (give_back i q) (i ∷ fs)
give_back-Free i q fs h a w v =
    let x = record (at q.desc i) { next = q.free_head; flags = 0 } in
    let here = get_or-set_self q.desc i x blank h in
    record {
      linked = (
        refl,
        (
          omega (arith, h, length-set q.desc i x),
          subst (λ n. Linked (set q.desc i x) n fs) (ap (λ y. y.next) (sym here))
              (Linked-set q.desc i x q.free_head fs a v.linked),
        ),
      );
      number = omega (arith, v.number, w);
      once = (a, v.once);
    }

stop_here :
    (fuel i : ℕ) (q : Virtqueue)
    → ((at q.desc i).flags % 2 == 0) ≡ true
    → free_chain (suc fuel) i q ≡ some (give_back i q)
unfolding free_chain
stop_here fuel i q h = rw (free_chain, h) refl

go_on :
    (fuel i : ℕ) (q : Virtqueue)
    → ((at q.desc i).flags % 2 == 0) ≡ false
    → free_chain (suc fuel) i q ≡ free_chain fuel (at q.desc i).next (give_back i q)
unfolding free_chain
go_on fuel i q h = rw (free_chain, h) refl

-- For a queue with a chain of one or more descriptors, each in it once, none of them free, and fewer than
-- 65536 with the free ones, `free_chain` ends after as many rounds as the chain has descriptors, and
-- returns them all to the free list, the last one first, in front of those that were free.
pub free_chain-Free :
    (is : List ℕ) (bs : List Buffer) (head : ℕ) (q : Virtqueue) (fs : List ℕ)
    → 0 < length is
    → Chained q.desc head is bs
    → Distinct is
    → Apart is fs
    → Free q fs
    → length is + q.num_free < 2 ^ 16
    → (r : Virtqueue) × ((free_chain (length is) head q ≡ some r) × Free r (reverse_onto is fs))
unfolding free_chain reverse_onto
free_chain-Free [] bs head q fs o c d a v w = absurd (omega (arith, o))
free_chain-Free (i ∷ is) [] head q fs o c d a v w = elim c [ ]
free_chain-Free (i ∷ []) (b ∷ []) head q fs o c d a v w =
    let f = give_back-Free i q fs c.1.0 a.0 (omega (arith, w)) v in
    let e = c.1.1.1.1.0 in
    (
      give_back i q,
      (
        subst (λ k. free_chain 1 k q ≡ some (give_back i q)) c.0
            (stop_here 0 i q (ground (arith, e))),
        f,
      ),
    )
free_chain-Free (i ∷ []) (b ∷ b' ∷ bs) head q fs o c d a v w = elim c.1.1.1.1.1 [ ]
free_chain-Free (i ∷ j ∷ is) (b ∷ []) head q fs o c d a v w = elim c.1.1.1.1.1 [ ]
free_chain-Free (i ∷ j ∷ is) (b ∷ b' ∷ bs) head q fs o c d a v w =
    let f = give_back-Free i q fs c.1.0 a.0 (omega (arith, w)) v in
    let x = record (at q.desc i) { next = q.free_head; flags = 0 } in
    let next = (at q.desc i).next in
    let c' = Chained-set q.desc i x next (j ∷ is) (b' ∷ bs) d.0 c.1.1.1.1.1 in
    let (r, (e, z)) =
      free_chain-Free (j ∷ is) (b' ∷ bs) next (give_back i q) (i ∷ fs) (omega arith) c' d.1
        (Apart-cons i (j ∷ is) fs d.0 a.1) f (omega (arith, w)) in
    let g = c.1.1.1.1.0 in
    (
      r,
      (
        subst (λ k. free_chain (length (i ∷ j ∷ is)) k q ≡ some r) c.0
            (go_on (length (j ∷ is)) i q (ground (arith, g)) ∙ e),
        z,
      ),
    )
