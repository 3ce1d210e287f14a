-- ===== src/Sched/Tests.antt =====
-- The scheduler on three tasks.
use serix.Base.{◌≡◌, refl, false, [], ◌∷◌, none, some, arith}
use serix.Base.Map
use serix.Base.Map.{nat_keyed}
use serix.Sched.{TaskCb, TaskState, Sched, ready, running, fair, schedule}
use serix.Sched.State.{WellFormed, schedule-WellFormed}
use serix.Sched.RoundRobin.{Live, schedules, gets_turn}

abbrev task : TaskState → TaskCb
task st = record {
  state = st;
  sched_class = fair 120;
  kstack = 4096;
  parent_id = 0;
  exit_status = none;
  children = [];
  waiting_for_child = false;
}

-- Task 1 runs, 2 and 3 wait in the queue.
abbrev three : Sched
three = record {
  tasks = (1, task running) ∷ (2, task ready) ∷ (3, task ready) ∷ [];
  queue = 2 ∷ 3 ∷ [];
  current = some 1;
  zombies = [];
  current_task = 1;
}

three-WellFormed : WellFormed three
unfolding Map.get
three-WellFormed = record {
  distinct = (
    ((λ e. omega (arith, e)), ((λ e. omega (arith, e)), tt)),
    (((λ e. omega (arith, e)), tt), (tt, tt)),
  );
  queued = (refl, (refl, tt));
  on_cpu = (refl, refl);
}

three-Live : Live three
unfolding Map.get
three-Live = record { busy = λ e. cc; stacked = (omega arith, (omega arith, (omega arith, tt))) }

schedule-WellFormed_example : WellFormed (schedule three).0
schedule-WellFormed_example = schedule-WellFormed three three-WellFormed

gets_turn_example : (schedules 2 three).current ≡ some 3
gets_turn_example = gets_turn (1 ∷ 2 ∷ []) three 3 [] three-Live refl
