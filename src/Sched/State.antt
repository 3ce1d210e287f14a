-- ===== src/Sched/State.antt =====
-- The states of the tasks in the run queue of task/src/scheduler.rs: what is queued is Ready, what
-- runs is Running, and no task stands in two places.
use mathlib.Core.Option
use serix.Base.{
  ℕ, ◌≡◌, ◌≢◌, refl, sym, subst, ◌∙◌, List, [], ◌∷◌, ◌++◌, Option, none, some, arith, All,
  All-append, All-map, All-zip, Absent, Distinct, Distinct-snoc,
}
use serix.Base.Map
use serix.Base.Map.{nat_keyed, get-modify}
use serix.Sched.{
  TaskState, ready, running, blocked, Sched, Tasks, set_state, pick_next_task, reschedule_current,
  schedule, block_current_and_switch,
}

abbrev pub state_in : Tasks → ℕ → Option TaskState
state_in m t = Option.map (λ cb. cb.state) (Map.get t m)

-- The task on the CPU, then the run queue.
abbrev pub line_of : Option ℕ → List ℕ → List ℕ
line_of none q = q
line_of (some c) q = c ∷ q

abbrev pub line : Sched → List ℕ
line s = line_of s.current s.queue

abbrev pub Queued : Tasks → List ℕ → Type 0
Queued m = All (λ t. state_in m t ≡ some ready)

abbrev pub IsRunning : Tasks → ℕ → Option ℕ → Type 0
IsRunning m ct none = Unit {0}
IsRunning m ct (some c) = (state_in m c ≡ some running) × (ct ≡ c)

pub record WellFormed (s : Sched) : Type 0 where
  pub distinct : Distinct (line s)
  pub queued : Queued s.tasks s.queue
  pub on_cpu : IsRunning s.tasks s.current_task s.current

-- Setting the state of one task.
pub state_in-set_self :
    (m : Tasks) (t : ℕ) (st : TaskState) {old : TaskState}
    → state_in m t ≡ some old
    → state_in (Map.modify t (set_state st) m) t ≡ some st
state_in-set_self m t st h = ground (arith, get-modify t t (set_state st) m)

pub state_in-set_ne :
    (m : Tasks) (t u : ℕ) (st : TaskState)
    → u ≢ t
    → state_in (Map.modify t (set_state st) m) u ≡ state_in m u
state_in-set_ne m t u st h = ground (arith, get-modify t u (set_state st) m)

-- Setting a task to the state that another one has keeps the latter's state.
pub state_in-set_same :
    (m : Tasks) (t u : ℕ) (st : TaskState)
    → state_in m u ≡ some st
    → state_in (Map.modify t (set_state st) m) u ≡ some st
state_in-set_same m t u st h = ground (arith, get-modify t u (set_state st) m)

pub Queued-enqueue :
    (m : Tasks) (q : List ℕ) (t : ℕ) {old : TaskState}
    → Queued m q
    → state_in m t ≡ some old
    → Queued (Map.modify t (set_state ready) m) (q ++ t ∷ [])
Queued-enqueue m q t h e =
    All-append _ q (t ∷ []) (All-map _ _ (λ u. state_in-set_same m t u ready) q h)
      (state_in-set_self m t ready e, tt)

pub Queued-set :
    (m : Tasks) (q : List ℕ) (t : ℕ) (st : TaskState)
    → Absent t q
    → Queued m q
    → Queued (Map.modify t (set_state st) m) q
Queued-set m q t st a h = All-zip _ _ _ (λ u d e. state_in-set_ne m t u st d ∙ e) q a h

-- Taking the front of the queue onto an idle CPU.
pick_next_task-WellFormed :
    (m : Tasks) (q z : List ℕ) (ct : ℕ)
    → Distinct q
    → Queued m q
    → WellFormed
        (pick_next_task
          (record { tasks = m; queue = q; current = none; zombies = z; current_task = ct })).0
unfolding pick_next_task
pick_next_task-WellFormed m [] z ct d h = record { distinct = tt; queued = tt; on_cpu = tt }
pick_next_task-WellFormed m (t ∷ q) z ct d h = record {
  distinct = d;
  queued = Queued-set m q t running d.0 h.1;
  on_cpu = (state_in-set_self m t running h.0, refl);
}

pick_idle-WellFormed :
    (s : Sched)
    → Distinct s.queue × Queued s.tasks s.queue × (s.current ≡ none)
    → WellFormed (pick_next_task s).0
pick_idle-WellFormed s h =
    subst (λ c. WellFormed (pick_next_task (record s { current = c })).0) (sym h.2)
      (pick_next_task-WellFormed s.tasks s.queue s.zombies s.current_task h.0 h.1)

-- The current task goes to the end of the queue, or is dropped if it has no kernel stack.
reschedule_queue :
    (m : Tasks) (cur : Option ℕ) (q z : List ℕ) (ct : ℕ)
    → WellFormed (record { tasks = m; queue = q; current = cur; zombies = z; current_task = ct })
    → let s =
        reschedule_current
          (record { tasks = m; queue = q; current = cur; zombies = z; current_task = ct }) in
      Distinct s.queue × Queued s.tasks s.queue × (s.current ≡ none)
unfolding reschedule_current
reschedule_queue m none q z ct v = (v.distinct, v.queued, refl)
reschedule_queue m (some c) q z ct v =
    ground
      (arith, Distinct-snoc c q v.distinct.0 v.distinct.1, Queued-enqueue m q c v.queued v.on_cpu.0)

-- `schedule` keeps the queued tasks Ready, the one on the CPU Running with its number in
-- CURRENT_TASK, and all of them in one place each.
pub schedule-WellFormed : (s : Sched) → WellFormed s → WellFormed (schedule s).0
unfolding schedule
schedule-WellFormed s v =
    pick_idle-WellFormed (reschedule_current s)
      (reschedule_queue s.tasks s.current s.queue s.zombies s.current_task v)

blocking :
    (m : Tasks) (c t : ℕ) (q z : List ℕ) (ct : ℕ)
    → WellFormed
        (record { tasks = m; queue = t ∷ q; current = some c; zombies = z; current_task = ct })
    → let s =
        (block_current_and_switch (record {
          tasks = m;
          queue = t ∷ q;
          current = some c;
          zombies = z;
          current_task = ct;
        })).0 in
      WellFormed s × Absent c (line s) × (state_in s.tasks c ≡ some blocked)
unfolding block_current_and_switch
blocking m c t q z ct v =
    let m' = Map.modify c (set_state blocked) m in
    let absent : Absent c (t ∷ q) = v.distinct.0 in
    let w : WellFormed (record {
      tasks = Map.modify t (set_state running) m';
      queue = q;
      current = some t;
      zombies = z;
      current_task = t;
    }) =
      unfold pick_next_task in
      pick_next_task-WellFormed m' (t ∷ q) z ct v.distinct.1
        (Queued-set m (t ∷ q) c blocked absent v.queued) in
    (
      w,
      absent,
      state_in-set_ne m' t c running (λ e. absent.0 (sym e))
          ∙ state_in-set_self m c blocked v.on_cpu.0,
    )

-- With another task ready, `block_current_and_switch` leaves the caller Blocked, off the CPU and out
-- of the run queue, and the other tasks well-formed.
pub block-WellFormed :
    (s : Sched) (c t : ℕ) (q : List ℕ)
    → WellFormed s
    → s.current ≡ some c
    → s.queue ≡ t ∷ q
    → let s' = (block_current_and_switch s).0 in
      WellFormed s' × Absent c (line s') × (state_in s'.tasks c ≡ some blocked)
block-WellFormed s c t q v ec eq =
    subst
      (λ cur.
        WellFormed (record s { current = cur })
        → let s' = (block_current_and_switch (record s { current = cur })).0 in
          WellFormed s' × Absent c (line s') × (state_in s'.tasks c ≡ some blocked))
      (sym ec)
      (subst
        (λ qu.
          WellFormed (record s { current = some c; queue = qu })
          → let s' = (block_current_and_switch (record s { current = some c; queue = qu })).0 in
            WellFormed s' × Absent c (line s') × (state_in s'.tasks c ≡ some blocked))
        (sym eq) (blocking s.tasks c t q s.zombies s.current_task))
      v
