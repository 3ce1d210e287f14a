-- ===== src/Virtqueue/Tests.antt =====
-- A request of two buffers on a new queue of four descriptors.
use serix.Base.{ℕ, ◌≡◌, refl, List, [], ◌∷◌, some, arith, take, drop, Absent, Distinct}
use serix.Virtqueue.{Virtqueue, Buffer, allocate, at, fill, free_chain, push_chain}
use serix.Virtqueue.Lists.{Free, Chained}
use serix.Virtqueue.Push.{push_chain-Free}
use serix.Virtqueue.Free.{reverse_onto, free_chain-Free}

abbrev four : Virtqueue
four = allocate 4

abbrev numbers : List ℕ
numbers = 0 ∷ 1 ∷ 2 ∷ 3 ∷ []

numbers-Distinct : Distinct numbers
numbers-Distinct = (
  ((λ e. omega (arith, e)), ((λ e. omega (arith, e)), ((λ e. omega (arith, e)), tt))),
  (
    ((λ e. omega (arith, e)), ((λ e. omega (arith, e)), tt)),
    (((λ e. omega (arith, e)), tt), (tt, tt)),
  ),
)

nine-Absent : Absent 9 numbers
nine-Absent = (
  (λ e. omega (arith, e)),
  ((λ e. omega (arith, e)), ((λ e. omega (arith, e)), ((λ e. omega (arith, e)), tt))),
)

four-Free : Free four numbers
unfolding allocate
four-Free = record {
  linked = (
    refl,
    (omega arith, (refl, (omega arith, (refl, (omega arith, (refl, (omega arith, tt))))))),
  );
  number = refl;
  once = numbers-Distinct;
}

abbrev header : Buffer
header = record { addr = 4096; len = 16; flags = 0 }

abbrev status : Buffer
status = record { addr = 8192; len = 1; flags = 2 }

push_chain-Free_example :
    let (r, head) = push_chain (header ∷ status ∷ []) four in
    (head ≡ some four.free_head)
    × Chained r.desc four.free_head (take 2 numbers) (header ∷ status ∷ [])
    × Free r (drop 2 numbers)
    × (at r.desc 9 ≡ at four.desc 9)
unfolding allocate
push_chain-Free_example =
    push_chain-Free header (status ∷ []) four numbers 9 four-Free (omega arith) (omega arith)
      nine-Absent

-- The queue after that request.
abbrev busy : Virtqueue
busy = (push_chain (header ∷ status ∷ []) four).0

pushed :
    (some 0 ≡ some four.free_head)
    × Chained busy.desc four.free_head (take 2 numbers) (header ∷ status ∷ [])
    × Free busy (drop 2 numbers)
    × (at busy.desc 9 ≡ at four.desc 9)
unfolding allocate push_chain
pushed =
    push_chain-Free header (status ∷ []) four numbers 9 four-Free (omega arith) (omega arith)
      nine-Absent

busy_free : busy.num_free ≡ 2
unfolding push_chain fill allocate
busy_free = refl

free_chain-Free_example :
    (r : Virtqueue) × ((free_chain 2 four.free_head busy ≡ some r)
      × Free r (reverse_onto (0 ∷ 1 ∷ []) (2 ∷ 3 ∷ [])))
free_chain-Free_example =
    free_chain-Free (0 ∷ 1 ∷ []) (header ∷ status ∷ []) four.free_head busy (2 ∷ 3 ∷ [])
      (omega arith) pushed.1 (((λ e. omega (arith, e)), tt), (tt, tt))
      (
        ((λ e. omega (arith, e)), ((λ e. omega (arith, e)), tt)),
        (((λ e. omega (arith, e)), ((λ e. omega (arith, e)), tt)), tt),
      )
      pushed.2 (omega (arith, busy_free))
