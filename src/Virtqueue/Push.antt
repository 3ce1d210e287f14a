-- ===== src/Virtqueue/Push.antt =====
-- `push_chain` takes the first free descriptors.
use serix.Base.{
  ℕ, zero, suc, ◌+◌, ◌^◌, ◌≤◌, ◌<◌, ◌≡◌, refl, sym, ap, ◌∙◌, List, [], ◌∷◌, some, arith, length,
  take, drop, Absent, Distinct, length-set, length-drop, get_or-set_self, get_or-set_ne, subst,
}
use serix.Virtqueue.{
  Virtqueue, Buffer, at, blank, filled, take_desc, fill, offer, is_empty, push_chain,
}
use serix.Virtqueue.Lists.{Linked, Free, Chained, Linked-set}

Absent-take : (j n : ℕ) (is : List ℕ) → Absent j is → Absent j (take n is)
Absent-take j zero is a = tt
Absent-take j (suc n) [] a = tt
Absent-take j (suc n) (i ∷ is) a = (a.0, Absent-take j n is a.1)

-- What the filling of descriptors from `idx` on leaves.
pub record Filled (q r : Virtqueue) (bs : List Buffer) (idx : ℕ) (is : List ℕ) : Type 0 where
  pub rest_linked : Linked r.desc r.free_head (drop (length bs) is)
  pub chain : Chained r.desc idx (take (length bs) is) bs
  pub others : (j : ℕ) → Absent j is → at r.desc j ≡ at q.desc j
  pub size : length r.desc ≡ length q.desc
  pub number : r.num_free + length bs ≡ q.num_free

last-Filled :
    (b : Buffer) (i : ℕ) (is : List ℕ) (q : Virtqueue)
    → i < length q.desc
    → Linked q.desc (at q.desc i).next is
    → Absent i is
    → 0 < q.num_free
    → Filled q (fill (b ∷ []) i q) (b ∷ []) i (i ∷ is)
unfolding fill
last-Filled b i is q h l a n =
    let v = filled b [] i q.desc in
    let here = get_or-set_self q.desc i v blank h in
    record {
      rest_linked = Linked-set q.desc i v (at q.desc i).next is a l;
      chain = (
        refl,
        (
          omega (arith, h, length-set q.desc i v),
          (ap (λ x. x.addr) here, (ap (λ x. x.len) here, (ap (λ x. x.flags) here, tt))),
        ),
      );
      others = λ j e. get_or-set_ne q.desc i j v blank e.0;
      size = length-set q.desc i v;
      number = omega (arith, n);
    }

more-Filled :
    (b c : Buffer) (bs : List Buffer) (i : ℕ) (is : List ℕ) (q : Virtqueue)
    → i < length q.desc
    → Absent i is
    → 0 < q.num_free
    → let q' = take_desc b (c ∷ bs) i q in
      Filled q' (fill (c ∷ bs) (at q.desc i).next q') (c ∷ bs) (at q.desc i).next is
      → Filled q (fill (b ∷ c ∷ bs) i q) (b ∷ c ∷ bs) i (i ∷ is)
unfolding fill
more-Filled b c bs i is q h a n f =
    let v = filled b (c ∷ bs) i q.desc in
    let r = fill (c ∷ bs) (at q.desc i).next (take_desc b (c ∷ bs) i q) in
    let here : at r.desc i ≡ v = f.others i a ∙ get_or-set_self q.desc i v blank h in
    let z = length-set q.desc i v in
    record {
      rest_linked = f.rest_linked;
      chain = (
        refl,
        (
          omega (arith, h, z, f.size),
          (
            ap (λ x. x.addr) here,
            (
              ap (λ x. x.len) here,
              (
                ap (λ x. x.flags) here,
                subst (λ k. Chained r.desc k (take (length (c ∷ bs)) is) (c ∷ bs))
                    (ap (λ x. x.next) (sym here)) f.chain,
              ),
            ),
          ),
        ),
      );
      others = λ j e. f.others j e.1 ∙ get_or-set_ne q.desc i j v blank e.0;
      size = f.size ∙ z;
      number = omega (arith, f.number, n);
    }

fill-Filled :
    (b : Buffer) (bs : List Buffer) (idx : ℕ) (q : Virtqueue) (is : List ℕ)
    → Linked q.desc idx is
    → Distinct is
    → length (b ∷ bs) ≤ length is
    → length is ≤ q.num_free
    → Filled q (fill (b ∷ bs) idx q) (b ∷ bs) idx is
fill-Filled b bs idx q [] l d n m = absurd (omega (arith, n))
fill-Filled b [] idx q (i ∷ is) l d n m =
    subst (λ k. Filled q (fill (b ∷ []) k q) (b ∷ []) k (i ∷ is)) l.0
      (last-Filled b i is q l.1.0 l.1.1 d.0 (omega (arith, m)))
fill-Filled b (c ∷ bs) idx q (i ∷ is) l d n m =
    let q' = take_desc b (c ∷ bs) i q in
    let next = (at q.desc i).next in
    let l' = Linked-set q.desc i (filled b (c ∷ bs) i q.desc) next is d.0 l.1.1 in
    let f = fill-Filled c bs next q' is l' d.1 (omega (arith, n)) (omega (arith, m)) in
    subst (λ k. Filled q (fill (b ∷ c ∷ bs) k q) (b ∷ c ∷ bs) k (i ∷ is)) l.0
      (more-Filled b c bs i is q l.1.0 d.0 (omega (arith, m)) f)

Distinct-drop : (n : ℕ) (is : List ℕ) → Distinct is → Distinct (drop n is)
Distinct-drop zero is d = d
Distinct-drop (suc n) [] d = tt
Distinct-drop (suc n) (i ∷ is) d = Distinct-drop n is d.1

-- For a queue whose free list holds the descriptors `is`, each once, and a request of at least one and
-- fewer than 65536 buffers, of which there are no more than free descriptors, `push_chain` answers the
-- head of the free list, from which the first descriptors of `is` then lead, in their order, through
-- the request's buffers, the NEXT flag set in each but the last; the rest of `is` is the free list, and
-- any descriptor j outside `is` is as it was.
pub push_chain-Free :
    (b : Buffer) (bs : List Buffer) (q : Virtqueue) (is : List ℕ) (j : ℕ)
    → Free q is
    → length (b ∷ bs) < 2 ^ 16
    → length (b ∷ bs) ≤ q.num_free
    → Absent j is
    → let (r, head) = push_chain (b ∷ bs) q in
      (head ≡ some q.free_head)
      × Chained r.desc q.free_head (take (length (b ∷ bs)) is) (b ∷ bs)
      × Free r (drop (length (b ∷ bs)) is)
      × (at r.desc j ≡ at q.desc j)
unfolding push_chain is_empty
push_chain-Free b bs q is j v w n a =
    let f =
      fill-Filled b bs q.free_head q is v.linked v.once (omega (arith, n, v.number))
        (omega (arith, v.number)) in
    let r = offer q.free_head (fill (b ∷ bs) q.free_head q) in
    let p : push_chain (b ∷ bs) q ≡ (r, some q.free_head) = ground (arith, w, n) in
    let rest : Free r (drop (length (b ∷ bs)) is) = record {
      linked = f.rest_linked;
      number = omega (arith, length-drop (length (b ∷ bs)) is, f.number, v.number);
      once = Distinct-drop (length (b ∷ bs)) is v.once;
    } in
    subst
      (λ x.
        (x.1 ≡ some q.free_head)
        × Chained x.0.desc q.free_head (take (length (b ∷ bs)) is) (b ∷ bs)
        × Free x.0 (drop (length (b ∷ bs)) is)
        × (at x.0.desc j ≡ at q.desc j))
      (sym p) (refl, f.chain, rest, f.others j a)
