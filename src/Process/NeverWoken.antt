-- ===== src/Process/NeverWoken.antt =====
-- SYS_WAIT and SYS_EXIT of kernel/src/syscall.rs together: SYS_EXIT means to wake a parent that sleeps
-- in SYS_WAIT, and cannot find it.
use serix.Base.{
  ℕ, ◌≡◌, ◌≢◌, sym, ap, subst, Bool, true, false, List, ◌∷◌, Option, none, some, Absent, Distinct,
}
use serix.Base.Map
use serix.Base.Map.{nat_keyed}
use serix.Sched.{
  Sched, TaskCb, enqueue_task, wake_task, preempt, block_current_and_switch, find_zombie_child,
}
use serix.Sched.State.{line, line_of}
use serix.Process.{Kernel, sys_exit, wait_allowed, wait_round, sys_wait, on_current}
use serix.Process.Orphan.{
  Gone, enqueue-Gone, preempt-Gone, block-Gone, sys_wait-Gone, sys_exit-Gone,
}

abbrev pub with_sched : {I : Type 0} → Kernel I → Sched → Kernel I
with_sched k s = record k { sched = s }

-- What the rest of the system does while `p` sleeps: timer interrupts, exits, waits and blockings of
-- whoever runs, wake-ups of other tasks, and new tasks.
pub data Step {I : Type 0} (p : ℕ) : Kernel I → Kernel I → Type 0 where
  timer : (k : Kernel I) → Step p k (with_sched k (preempt k.sched).0)
  exits : (k : Kernel I) (status : ℕ) → Step p k (sys_exit status k).0
  waits :
      (k : Kernel I) (pid : ℕ) (wnohang : Bool)
      → Step p k (with_sched k (sys_wait pid wnohang k.sched).0)
  blocks : (k : Kernel I) → Step p k (with_sched k (block_current_and_switch k.sched).0)
  wakes : (k : Kernel I) (t : ℕ) → t ≢ p → Step p k (with_sched k (wake_task t k.sched))
  starts :
      (k : Kernel I) (t : ℕ) (cb : TaskCb)
      → t ≢ p
      → Step p k (with_sched k (enqueue_task t cb k.sched))

pub data Reach {I : Type 0} (p : ℕ) (k : Kernel I) : Kernel I → Type 0 where
  here : Reach p k k
  next : {j l : Kernel I} → Reach p k j → Step p j l → Reach p k l

module _ {I : Type 0} where
  Step-Gone : (p : ℕ) {k l : Kernel I} → Step p k l → Gone p k.sched → Gone p l.sched
  unfolding wake_task enqueue_task
  Step-Gone p (timer k) g = preempt-Gone p k.sched g
  Step-Gone p (exits k status) g = sys_exit-Gone p status k g
  Step-Gone p (waits k pid wnohang) g = sys_wait-Gone p pid wnohang k.sched g
  Step-Gone p (blocks k) g = block-Gone p k.sched g
  Step-Gone p (wakes k t ne) g = enqueue-Gone p t k.sched ne g
  Step-Gone p (starts k t cb ne) g =
      enqueue-Gone p t (record k.sched { tasks = Map.insert t cb k.sched.tasks }) ne g

  Reach-Gone : (p : ℕ) {k l : Kernel I} → Gone p k.sched → Reach p k l → Gone p l.sched
  Reach-Gone p g here = g
  Reach-Gone p g (next r st) = Step-Gone p st (Reach-Gone p g r)

asleep-Gone :
    (p t : ℕ) (cur : Option ℕ) (qu q : List ℕ) (s : Sched)
    → cur ≡ some p
    → qu ≡ t ∷ q
    → Distinct (line_of cur qu)
    → Gone p
        (block_current_and_switch (
          on_current
            (λ cb. record cb { waiting_for_child = true })
            (record s { current = cur; queue = qu }))).0
unfolding block_current_and_switch
asleep-Gone p t cur qu q s ec eq d =
    subst
      (λ (c : Option ℕ).
        Gone p
          (block_current_and_switch (
            on_current (λ cb. record cb { waiting_for_child = true })
              (record s { current = c; queue = qu }))).0)
      (sym ec)
      (subst
        (λ (u : List ℕ).
          Gone p
            (block_current_and_switch (
              on_current (λ cb. record cb { waiting_for_child = true })
                (record s { current = some p; queue = u }))).0)
        (sym eq)
        (subst (λ (u : List ℕ). Absent p u) eq
          (subst (λ (c : Option ℕ). Distinct (line_of c qu)) ec d).0))

sleeping_wait :
    (pid : ℕ) (s : Sched)
    → wait_allowed pid s ≡ true
    → find_zombie_child s.current_task pid s ≡ (s, none)
    → (sys_wait pid false s).0
      ≡ (block_current_and_switch (on_current (λ cb. record cb { waiting_for_child = true }) s)).0
unfolding sys_wait wait_round
sleeping_wait pid s a z = rw a (
    rw (wait_round, z)
      (ap
        (λ (r : Sched × Option ℕ).
          (block_current_and_switch
            (on_current (λ cb. record cb { waiting_for_child = true }) r.0)).0)
        z))

-- A task `p` waits for a child that has not exited yet, while another task is ready. Then, whatever
-- the other tasks do and whoever exits, `p` never runs and is never queued again, unless something
-- else than SYS_EXIT wakes it: the parent of an exiting child stays asleep.
pub parent_never_woken :
    {I : Type 0} (p t : ℕ) (q : List ℕ) (pid : ℕ) (k l : Kernel I)
    → Distinct (line k.sched)
    → k.sched.current ≡ some p
    → k.sched.queue ≡ t ∷ q
    → wait_allowed pid k.sched ≡ true
    → find_zombie_child k.sched.current_task pid k.sched ≡ (k.sched, none)
    → Reach p (with_sched k (sys_wait pid false k.sched).0) l
    → Absent p (line l.sched)
parent_never_woken p t q pid k l d ec eq a z r =
    Reach-Gone p
      (subst (Gone p) (sym (sleeping_wait pid k.sched a z))
        (asleep-Gone p t k.sched.current k.sched.queue q k.sched ec eq d))
      r
