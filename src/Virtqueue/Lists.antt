-- ===== src/Virtqueue/Lists.antt =====
-- The lists that run through the descriptor table.
use serix.Base.{
  ℕ, ◌<◌, ◌≡◌, sym, ap, ◌∙◌, List, [], ◌∷◌, arith, length, set, Absent, Distinct, length-set,
  get_or-set_ne, subst,
}
use serix.Virtqueue.{VirtqDesc, Virtqueue, Buffer, at, blank, chain_flags}

-- The numbers `is` are those met from `head` on along `next`, as many as there are.
abbrev pub Linked : List VirtqDesc → ℕ → List ℕ → Type 0
Linked d head [] = Unit
Linked d head (i ∷ is) = (i ≡ head) × ((i < length d) × Linked d (at d i).next is)

-- The free descriptors of a queue, in the order in which they will be taken.
pub record Free (q : Virtqueue) (is : List ℕ) : Type 0 where
  pub linked : Linked q.desc q.free_head is
  pub number : length is ≡ q.num_free
  pub once : Distinct is

-- The descriptors `is`, from `head` on, hold the buffers, each with the NEXT flag but the last.
abbrev pub Chained : List VirtqDesc → ℕ → List ℕ → List Buffer → Type 0
Chained d head [] [] = Unit
Chained d head (i ∷ is) (b ∷ bs) =
    (i ≡ head)
    × ((i < length d)
        × (((at d i).addr ≡ b.addr)
            × (((at d i).len ≡ b.len)
                × (((at d i).flags ≡ chain_flags bs b.flags) × Chained d (at d i).next is bs))))
Chained d head _ _ = ⊥

-- A write to a descriptor that is not in a list leaves the list.
pub Linked-set :
    (d : List VirtqDesc) (j : ℕ) (v : VirtqDesc) (head : ℕ) (is : List ℕ)
    → Absent j is
    → Linked d head is
    → Linked (set d j v) head is
Linked-set d j v head [] a h = tt
Linked-set d j v head (i ∷ is) a h =
    let e = get_or-set_ne d j i v blank (λ q. a.0 (sym q)) in
    (
      h.0,
      (
        omega (arith, h.1.0, length-set d j v),
        subst (λ n. Linked (set d j v) n is) (ap (λ x. x.next) (sym e))
            (Linked-set d j v (at d i).next is a.1 h.1.1),
      ),
    )

pub Chained-set :
    (d : List VirtqDesc) (j : ℕ) (v : VirtqDesc) (head : ℕ) (is : List ℕ) (bs : List Buffer)
    → Absent j is
    → Chained d head is bs
    → Chained (set d j v) head is bs
Chained-set d j v head [] [] a h = tt
Chained-set d j v head [] (b ∷ bs) a h = elim h [ ]
Chained-set d j v head (i ∷ is) [] a h = elim h [ ]
Chained-set d j v head (i ∷ is) (b ∷ bs) a h =
    let e = get_or-set_ne d j i v blank (λ q. a.0 (sym q)) in
    (
      h.0,
      (
        omega (arith, h.1.0, length-set d j v),
        (
          ap (λ x. x.addr) e ∙ h.1.1.0,
          (
            ap (λ x. x.len) e ∙ h.1.1.1.0,
            (
              ap (λ x. x.flags) e ∙ h.1.1.1.1.0,
              subst (λ n. Chained (set d j v) n is bs) (ap (λ x. x.next) (sym e))
                  (Chained-set d j v (at d i).next is bs a.1 h.1.1.1.1.1),
            ),
          ),
        ),
      ),
    )
