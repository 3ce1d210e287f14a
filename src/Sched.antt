-- ===== src/Sched.antt =====
-- task/src/scheduler.rs and the task switching of task/src/lib.rs. Tasks are shared objects
-- (`Arc<Mutex<TaskCb>>`): they stand in a store, under their numbers, and the run queue, `current` and
-- the zombie list hold the numbers. A task's number never changes, and `TaskId::new` never gives one
-- out twice.
pub mod State
pub mod RoundRobin
mod Tests
use mathlib.Core.Option
use serix.Base.{
  ℕ, zero, suc, ◌-◌, ◌^◌, Bool, true, false, ◌&&◌, ◌||◌, not, List, [], ◌∷◌, ◌++◌, Option, none,
  some, if◌then◌else◌, ◌==◌, length,
}
use serix.Base.Map
use serix.Base.Map.{nat_keyed}

pub data TaskState : Type 0 where
  ready running blocked sleeping zombie terminated : TaskState

pub data SchedClass : Type 0 where
  realtime fair : ℕ → SchedClass
  batch iso : SchedClass

-- The control block, less the CPU context, the name and the page table frame, which the scheduler
-- only carries. `kstack` is the stack address.
pub record TaskCb : Type 0 where
  pub state : TaskState
  pub sched_class : SchedClass
  pub kstack : ℕ
  pub parent_id : ℕ
  pub exit_status : Option ℕ
  pub children : List ℕ
  pub waiting_for_child : Bool

abbrev pub Tasks : Type 0
Tasks = List (ℕ × TaskCb)

-- `RunQueue`, the store of the tasks, and the atomic CURRENT_TASK.
pub record Sched : Type 0 where
  pub tasks : Tasks
  pub queue : List ℕ
  pub current : Option ℕ
  pub zombies : List ℕ
  pub current_task : ℕ

-- `TaskCB::set_state`
abbrev pub set_state : TaskState → TaskCb → TaskCb
set_state st t = record t { state = st }

-- `TaskCB::priority`
pub priority : TaskCb → ℕ
priority t = elim t.sched_class [ realtime p ↦ p | fair p ↦ p | batch ↦ 140 | iso ↦ 50 ]

-- A field of the task behind an Arc; `d` is for a number that stands for no task.
abbrev pub field {ℓ} : {A : Type ℓ} → (TaskCb → A) → A → Sched → ℕ → A
field f d s t = elim (Map.get t s.tasks) [ none ↦ d | some cb ↦ f cb ]

abbrev pub update : (TaskCb → TaskCb) → ℕ → Sched → Sched
update f t s = record s { tasks = Map.modify t f s.tasks }

-- `RunQueue::new`, with no task
unfoldable pub new : Sched
new = record { tasks = []; queue = []; current = none; zombies = []; current_task = 0 }

-- `RunQueue::enqueue`
unfoldable pub enqueue : ℕ → Sched → Sched
enqueue t s = record s { tasks = Map.modify t (set_state ready) s.tasks; queue = s.queue ++ t ∷ [] }

-- `RunQueue::dequeue`
unfoldable pub dequeue : Sched → Sched × Option ℕ
dequeue s = elim s.queue [ [] ↦ (s, none) | t ∷ q ↦ (record s { queue = q }, some t) ]

-- `RunQueue::peek`
unfoldable pub peek : Sched → Option ℕ
peek s = elim s.queue [ [] ↦ none | t ∷ q ↦ some t ]

-- `wake_task`, and `enqueue_task` on a task that is in the store
unfoldable pub wake_task : ℕ → Sched → Sched
unfolding enqueue
wake_task t s = enqueue t s

-- `enqueue_task` on a new task
unfoldable pub enqueue_task : ℕ → TaskCb → Sched → Sched
unfolding enqueue
enqueue_task t cb s = enqueue t (record s { tasks = Map.insert t cb s.tasks })

-- `take_current`
unfoldable pub take_current : Sched → Sched × Option ℕ
take_current s = (record s { current = none }, s.current)

-- What `pick_next_task` does with the task that it dequeued.
abbrev pub run_task : ℕ → Sched → Sched
run_task t s = record s {
  tasks = Map.modify t (set_state running) s.tasks;
  current_task = t;
  current = some t;
}

-- `pick_next_task`
unfoldable pub pick_next_task : Sched → Sched × Option ℕ
unfolding dequeue
pick_next_task s =
    let (s', next) = dequeue s in elim next [ none ↦ (s', none) | some t ↦ (run_task t s', some t) ]

-- `reschedule_current`: the boot placeholder, with no kernel stack, is dropped.
unfoldable pub reschedule_current : Sched → Sched
unfolding take_current enqueue
reschedule_current s =
    let (s', cur) = take_current s in
    elim cur [
      | none ↦ s'
      | some t ↦ if field (λ cb. cb.kstack) 0 s' t == 0 then s' else enqueue t s'
    ]

-- `scheduler::schedule`
unfoldable pub schedule : Sched → Sched × Option ℕ
unfolding reschedule_current pick_next_task
schedule s = pick_next_task (reschedule_current s)

-- A context switch: the task left, the task entered, and the argument of the switch hook, which is
-- called for a task with a kernel stack.
pub record Switch : Type 0 where
  pub from : Option ℕ
  pub to : ℕ
  pub hook : Option ℕ

abbrev pub hook_of : Sched → ℕ → Option ℕ
hook_of s t = let k = field (λ cb. cb.kstack) 0 s t in if k == 0 then none else some k

-- The switch of `task::schedule`: none to itself, and none without a task to save.
abbrev pub switch_from : Option ℕ → ℕ → Sched → Option Switch
switch_from none t s = none
switch_from (some old) t s =
    if old == t then none else some (record { from = some old; to = t; hook = hook_of s t })

-- `task::schedule`, called by the timer and by `task_yield`
unfoldable pub preempt : Sched → Sched × Option Switch
unfolding schedule
preempt s =
    let (s', next) = schedule s in
    elim next [ none ↦ (s', none) | some t ↦ (s', switch_from s.current t s') ]

-- `block_current_and_switch` after it took the current task off.
abbrev pub block_task : ℕ → Sched → Sched × Option Switch
unfolding pick_next_task
block_task old s =
    let (s', next) = pick_next_task (update (set_state blocked) old s) in
    elim next [
      | none ↦ (record s' { current = some old }, none)
      | some t ↦ (s', some (record { from = some old; to = t; hook = hook_of s' t }))
    ]

-- `block_current_and_switch`
unfoldable pub block_current_and_switch : Sched → Sched × Option Switch
unfolding take_current block_task pick_next_task
block_current_and_switch s =
    let (s', cur) = take_current s in elim cur [ none ↦ (s', none) | some old ↦ block_task old s' ]

-- `push_zombie`
unfoldable pub push_zombie : ℕ → Sched → Sched
push_zombie t s = record s { zombies = s.zombies ++ t ∷ [] }

unfoldable pub find : ℕ → List ℕ → Option ℕ
find t [] = none
find t (u ∷ us) = if u == t then some u else find t us

-- `find_task_by_id`: the current task and the run queue are searched, nothing else.
unfoldable pub find_task_by_id : ℕ → Sched → Option ℕ
unfolding find
find_task_by_id t s = elim s.current [
  | none ↦ find t s.queue
  | some c ↦ if c == t then some c else find t s.queue
]

-- `-1_i64 as u64`
abbrev pub any_child : ℕ
any_child = 2 ^ 64 - 1

-- The test of `find_zombie_child`.
abbrev pub is_zombie_child : ℕ → ℕ → Sched → ℕ → Bool
is_zombie_child parent child s z =
    field (λ cb. cb.parent_id == parent) false s z && (child == any_child || z == child)

-- `position` and `remove`: the first element that passes, and the list without it.
unfoldable pub take_first : (ℕ → Bool) → List ℕ → Option (ℕ × List ℕ)
take_first p [] = none
take_first p (z ∷ zs) =
    if p z then some (z, zs) else Option.map (λ (r : ℕ × List ℕ). (r.0, z ∷ r.1)) (take_first p zs)

-- `find_zombie_child`
unfoldable pub find_zombie_child : ℕ → ℕ → Sched → Sched × Option ℕ
unfolding take_first
find_zombie_child parent child s = elim (take_first (is_zombie_child parent child s) s.zombies) [
  | none ↦ (s, none)
  | some r ↦ (record s { zombies = r.1 }, some r.0)
]
