-- ===== src/Fd/NextFd.antt =====
-- `next_fd` of kernel/src/fd.rs: the loop ends, at the lowest free descriptor from 3 on.
use serix.Base.{
  ℕ, zero, suc, ◌+◌, ◌≤◌, ◌<◌, ◌≡◌, true, false, not, ◌&&◌, List, [], ◌∷◌, arith, if◌then◌else◌,
  ◌==◌, leb, ltb, length, Bool-cases, ℕ_discrete, subst, inl, inr,
}
use serix.Base.Map
use serix.Base.Map.{pair_keyed}
use serix.Fd.{contains_key, next_fd_from, next_fd}

-- How many entries a task has from a descriptor on.
above : ℕ → ℕ → List ((ℕ × ℕ) × ℕ) → ℕ
above task fd [] = 0
above task fd (((t, k), h) ∷ m) = (if t == task && leb fd k then 1 else 0) + above task fd m

above-le-length : (task fd : ℕ) (m : List ((ℕ × ℕ) × ℕ)) → above task fd m ≤ length m
unfolding above
above-le-length task fd [] = omega arith
above-le-length task fd (((t, k), h) ∷ m) = ground (arith, above-le-length task fd m)

above-suc-le : (task fd : ℕ) (m : List ((ℕ × ℕ) × ℕ)) → above task (fd + 1) m ≤ above task fd m
unfolding above
above-suc-le task fd [] = omega arith
above-suc-le task fd (((t, k), h) ∷ m) = ground (arith, above-suc-le task fd m)

-- Stepping over a descriptor in use leaves fewer entries ahead.
above-suc-lt :
    (task fd : ℕ) (m : List ((ℕ × ℕ) × ℕ))
    → contains_key (task, fd) m ≡ true
    → above task (fd + 1) m < above task fd m
unfolding above Map.get
above-suc-lt task fd [] h = cc
above-suc-lt task fd (((t, k), v) ∷ m) h =
    ground (arith, above-suc-lt task fd m, above-suc-le task fd m)

pub record Lowest (fd : ℕ) (task : ℕ) (m : List ((ℕ × ℕ) × ℕ)) (r : ℕ) : Type 0 where
  pub free : contains_key (task, r) m ≡ false
  pub from : fd ≤ r
  pub below : (k : ℕ) → fd ≤ k → k < r → contains_key (task, k) m ≡ true

here-Lowest :
    (task fd : ℕ) (m : List ((ℕ × ℕ) × ℕ)) → contains_key (task, fd) m ≡ false → Lowest fd task m fd
here-Lowest task fd m e = record {
  free = e;
  from = omega arith;
  below = λ k p q. absurd (omega arith);
}

-- Past a descriptor in use the answer is the same.
skip-Lowest :
    (task fd r : ℕ) (m : List ((ℕ × ℕ) × ℕ))
    → contains_key (task, fd) m ≡ true
    → Lowest (fd + 1) task m r
    → Lowest fd task m r
skip-Lowest task fd r m e l = record {
  free = l.free;
  from = omega (arith, l.from);
  below = λ k p q. elim (ℕ_discrete fd k) [
    | yes here ↦ subst (λ j. contains_key (task, j) m ≡ true) here e
    | no past ↦ l.below k (omega arith) q
  ];
}

next_fd_from-Lowest :
    (n task fd : ℕ) (m : List ((ℕ × ℕ) × ℕ))
    → above task fd m ≤ n
    → Lowest fd task m (next_fd_from n task fd m)
unfolding next_fd_from
next_fd_from-Lowest zero task fd m h = elim (Bool-cases (contains_key (task, fd) m)) [
  | inl used ↦ absurd (omega (arith, above-suc-lt task fd m used))
  | inr unused ↦ here-Lowest task fd m unused
]
next_fd_from-Lowest (suc n) task fd m h = elim (Bool-cases (contains_key (task, fd) m)) [
  | inl used ↦ rw used (
      skip-Lowest task fd _ m used
        (next_fd_from-Lowest n task (fd + 1) m (omega (arith, above-suc-lt task fd m used))))
  | inr unused ↦ rw unused (here-Lowest task fd m unused)
]

pub next_fd-Lowest : (task : ℕ) (m : List ((ℕ × ℕ) × ℕ)) → Lowest 3 task m (next_fd task m)
unfolding next_fd
next_fd-Lowest task m = next_fd_from-Lowest (length m) task 3 m (above-le-length task 3 m)

-- Whatever the table holds, the loop ends: the number that `next_fd` returns is at least 3 and is not
-- open in the task, and no lower number k from 3 on is free.
pub next_fd_least :
    (task : ℕ) (m : List ((ℕ × ℕ) × ℕ)) (k : ℕ)
    → (3 ≤ next_fd task m)
      × (contains_key (task, next_fd task m) m ≡ false)
      × ((leb 3 k && ltb k (next_fd task m) && not (contains_key (task, k) m)) ≡ false)
next_fd_least task m k =
    let l = next_fd-Lowest task m in
    (
      l.from,
      l.free,
      elim (Bool-cases (leb 3 k && ltb k (next_fd task m))) [
        | inl c ↦ ground (arith, c, l.below k (ground (arith, c)) (ground (arith, c)))
        | inr c ↦ ground (arith, c)
      ],
    )
