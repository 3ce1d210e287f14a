-- ===== src/Process/Reap.antt =====
-- SYS_EXIT followed by SYS_WAIT in the parent (kernel/src/syscall.rs): the parent is given the child's
-- number and status, once.
use serix.Base.{
  ℕ, ap, ◌∙◌, ◌*◌, ◌%◌, ◌≡◌, ◌≢◌, ◌⊎◌, Bool, true, false, List, [], ◌∷◌, none, some, arith, refl,
  inl, inr, Bool-cases, ◌==◌,
}
use serix.Base.Map
use serix.Base.Map.{nat_keyed, get-modify}
use serix.Sched.{
  Sched, Tasks, TaskCb, zombie, ready, running, set_state, field, find_zombie_child, any_child,
}
use serix.Process.{
  exit_task, wait_round, sys_wait, wait_allowed, returns, children_of, contains, is_empty, positive,
}

-- The parent `p` is the next to run.
abbrev pub before_exit : Tasks → ℕ → List ℕ → ℕ → Sched
before_exit m p q ct = record {
  tasks = m;
  queue = p ∷ q;
  current = none;
  zombies = [];
  current_task = ct;
}

abbrev pub exited : ℕ → TaskCb → TaskCb
exited status cb = record cb { exit_status = some status; state = zombie }

-- What SYS_EXIT leaves: the parent runs, and the child is the one zombie, with its status.
pub record Exited (s : Sched) (c p status : ℕ) : Type 0 where
  pub runs : s.current ≡ some p
  pub number : s.current_task ≡ p
  pub zombies : s.zombies ≡ c ∷ []
  pub status_kept : field (λ cb. cb.exit_status) none s c ≡ some status
  pub parent_kept : field (λ cb. cb.parent_id == p) false s c ≡ true

exit_task-Exited :
    (m : Tasks) (c p status ct : ℕ) (q : List ℕ) (cb pb : TaskCb)
    → Map.get c m ≡ some cb
    → Map.get p m ≡ some pb
    → cb.parent_id ≡ p
    → p ≢ 0
    → c ≢ p
    → Exited (exit_task status c (before_exit m p q ct)).0 c p status
unfolding exit_task
exit_task-Exited m c p status ct q cb pb ec ep par nz ne =
    let m1 = Map.modify c (exited status) m in
    let f : TaskCb → TaskCb = λ cb. record cb { waiting_for_child = false } in
    let m2 = Map.modify p f m1 in
    let m3 = Map.modify p (set_state ready) m2 in
    let a1 = get-modify c c (exited status) m in
    let a2 = get-modify p c f m1 in
    let a3 = get-modify p c (set_state ready) m2 in
    let a4 = get-modify p c (set_state running) m3 in
    let a5 = get-modify p c (set_state running) m1 in
    let b1 = get-modify c p (exited status) m in
    record {
      runs = ground (arith, a1, b1);
      number = ground (arith, a1, b1);
      zombies = ground (arith, a1, b1);
      status_kept = ground (arith, a1, a2, a3, a4, a5, b1);
      parent_kept = ground (arith, a1, a2, a3, a4, a5, b1);
    }

found_zombie :
    (s : Sched) (c p status pid : ℕ)
    → (pid ≡ any_child) ⊎ (pid ≡ c)
    → Exited s c p status
    → find_zombie_child s.current_task pid s ≡ (record s { zombies = [] }, some c)
unfolding find_zombie_child
found_zombie s c p status pid h x = ground (arith, x.zombies, x.number, x.parent_kept)

-- The parent keeps its list of children while a child exits.
exit_task-children :
    (m : Tasks) (c p status ct : ℕ) (q : List ℕ) (cb pb : TaskCb)
    → Map.get c m ≡ some cb
    → Map.get p m ≡ some pb
    → cb.parent_id ≡ p
    → p ≢ 0
    → c ≢ p
    → children_of (exit_task status c (before_exit m p q ct)).0 ≡ pb.children
unfolding exit_task
exit_task-children m c p status ct q cb pb ec ep par nz ne =
    let m1 = Map.modify c (exited status) m in
    let f : TaskCb → TaskCb = λ cb. record cb { waiting_for_child = false } in
    let m2 = Map.modify p f m1 in
    let m3 = Map.modify p (set_state ready) m2 in
    let a1 = get-modify c c (exited status) m in
    let b1 = get-modify c p (exited status) m in
    let b2 = get-modify p p f m1 in
    let b3 = get-modify p p (set_state ready) m2 in
    let b4 = get-modify p p (set_state running) m3 in
    let b5 = get-modify p p (set_state running) m1 in ground (arith, a1, b1, b2, b3, b4, b5)

contains-nonempty : (c : ℕ) (l : List ℕ) → contains c l ≡ true → is_empty l ≡ false
unfolding contains is_empty
contains-nonempty c [] h = cc
contains-nonempty c (x ∷ l) h = refl

-- A task with a child may wait for it, and for any.
wait_allowed_for :
    (s : Sched) (c pid : ℕ)
    → (pid ≡ any_child) ⊎ (pid ≡ c)
    → contains c (children_of s) ≡ true
    → wait_allowed pid s ≡ true
unfolding wait_allowed
wait_allowed_for s c pid h k =
    let some_child = contains-nonempty c (children_of s) k in
    elim h [
      | inl e ↦ let neg : positive pid ≡ false = ground (arith, e) in rw (neg, some_child) refl
      | inr e ↦ elim (Bool-cases (positive pid)) [
        | inl y ↦ let same = ap (λ i. contains i (children_of s)) e ∙ k in rw (y, same) refl
        | inr neg ↦ rw (neg, some_child) refl
      ]
    ]

-- A child that its parent lists exits, while the parent is next in the run queue and no other zombie is
-- left. Then the parent runs, and SYS_WAIT, asked for this child or for any, returns the child's number
-- and the low byte of its status, shifted left by eight bits, and leaves no zombie.
pub exit_then_wait :
    (m : Tasks) (c p status pid ct : ℕ) (wnohang : Bool) (q : List ℕ) (cb pb : TaskCb)
    → Map.get c m ≡ some cb
    → Map.get p m ≡ some pb
    → cb.parent_id ≡ p
    → contains c pb.children ≡ true
    → p ≢ 0
    → c ≢ p
    → (pid ≡ any_child) ⊎ (pid ≡ c)
    → let s = (exit_task status c (before_exit m p q ct)).0 in
      (s.current ≡ some p)
      × ((sys_wait pid wnohang s).1 ≡ returns c (some (status % 256 * 256)))
      × ((sys_wait pid wnohang s).0.zombies ≡ [])
unfolding sys_wait wait_round
exit_then_wait m c p status pid ct wnohang q cb pb ec ep par kid nz ne h =
    let s = (exit_task status c (before_exit m p q ct)).0 in
    let x = exit_task-Exited m c p status ct q cb pb ec ep par nz ne in
    let z = found_zombie s c p status pid h x in
    let k = exit_task-children m c p status ct q cb pb ec ep par nz ne in
    let a = wait_allowed_for s c pid h (ap (contains c) k ∙ kid) in
    (x.runs, ground (arith, a, z, x.status_kept), ground (arith, a, z, x.runs))
