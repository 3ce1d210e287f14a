-- ===== src/Process/Tests.antt =====
-- A parent and a child, with the numbers 1 and 2.
use serix.Base.{ℕ, ◌%◌, ◌*◌, ◌≡◌, refl, inr, false, List, [], ◌∷◌, none, some, arith, Absent}
use serix.Base.Map
use serix.Base.Map.{nat_keyed}
use serix.Fd
use serix.Sched.{TaskCb, TaskState, ready, running, fair, find_zombie_child}
use serix.Sched.State.{line}
use serix.Process.{Kernel, exit_task, sys_exit, sys_wait, wait_allowed, contains, returns}
use serix.Process.Reap.{before_exit, exit_then_wait}
use serix.Process.NeverWoken.{here, next, exits, with_sched, parent_never_woken}

abbrev task : TaskState → ℕ → List ℕ → TaskCb
task st parent children = record {
  state = st;
  sched_class = fair 120;
  kstack = 4096;
  parent_id = parent;
  exit_status = none;
  children = children;
  waiting_for_child = false;
}

abbrev family : List (ℕ × TaskCb)
family = (1, task ready 0 (2 ∷ [])) ∷ (2, task running 1 []) ∷ []

exit_then_wait_example :
    let s = (exit_task 300 2 (before_exit family 1 [] 2)).0 in
    (s.current ≡ some 1)
    × ((sys_wait 2 false s).1 ≡ returns 2 (some (300 % 256 * 256)))
    × ((sys_wait 2 false s).0.zombies ≡ [])
unfolding Map.get contains
exit_then_wait_example =
    exit_then_wait family 2 1 300 2 2 false [] (task running 1 []) (task ready 0 (2 ∷ [])) refl refl
      refl refl (λ e. omega (arith, e)) (λ e. omega (arith, e)) (inr refl)

-- The parent runs and waits; the child is next.
abbrev waiting : Kernel ℕ
waiting = record {
  sched = record {
    tasks = (1, task running 0 (2 ∷ [])) ∷ (2, task ready 1 []) ∷ [];
    queue = 2 ∷ [];
    current = some 1;
    zombies = [];
    current_task = 1;
  };
  fds = Fd.empty;
}

abbrev asleep : Kernel ℕ
asleep = with_sched waiting (sys_wait 2 false waiting.sched).0

parent_never_woken_example : Absent 1 (line (sys_exit 0 asleep).0.sched)
unfolding wait_allowed find_zombie_child Map.get
parent_never_woken_example =
    parent_never_woken 1 2 [] 2 waiting (sys_exit 0 asleep).0
      (((λ e. omega (arith, e)), tt), (tt, tt)) refl refl refl refl (next here (exits asleep 0))
