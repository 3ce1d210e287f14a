-- ===== src/Sched/RoundRobin.antt =====
-- Round-robin scheduling of task/src/scheduler.rs: `schedule` turns the line of tasks by one place,
-- so every task gets the CPU after as many schedulings as stand before it.
use serix.Base.{
  ℕ, zero, suc, ◌<◌, ◌≡◌, ◌≢◌, refl, ap, ◌∙◌, List, [], ◌∷◌, ◌++◌, Option, none, some, arith, All,
  All-append, All-map, length, append_assoc,
}
use serix.Base.Map
use serix.Base.Map.{nat_keyed, get-modify}
use serix.Sched.{
  TaskState, ready, running, Sched, Tasks, set_state, schedule, pick_next_task, reschedule_current,
}
use serix.Sched.State.{line, line_of}

abbrev pub kstack_in : Tasks → ℕ → ℕ
kstack_in m t = elim (Map.get t m) [ none ↦ 0 | some cb ↦ cb.kstack ]

kstack_in-set_state :
    (m : Tasks) (t u : ℕ) (st : TaskState)
    → kstack_in (Map.modify t (set_state st) m) u ≡ kstack_in m u
kstack_in-set_state m t u st = ground (arith, get-modify t u (set_state st) m)

-- Every task of the line has a kernel stack; only the boot placeholder has none.
abbrev pub Stacked : Tasks → List ℕ → Type 0
Stacked m = All (λ t. 0 < kstack_in m t)

Stacked-set_state :
    (m : Tasks) (q : List ℕ) (t : ℕ) (st : TaskState)
    → Stacked m q
    → Stacked (Map.modify t (set_state st) m) q
Stacked-set_state m q t st = All-map _ _ (λ u h. omega (arith, kstack_in-set_state m t u st)) q

-- Someone runs, and everyone in the line has a stack.
pub record Live (s : Sched) : Type 0 where
  pub busy : s.current ≢ none
  pub stacked : Stacked s.tasks (line s)

unfoldable pub turn : List ℕ → List ℕ
turn [] = []
turn (x ∷ xs) = xs ++ x ∷ []

-- The schedulers' state by its parts.
abbrev at : Tasks → Option ℕ → List ℕ → List ℕ → ℕ → Sched
at m cur q z ct = record { tasks = m; queue = q; current = cur; zombies = z; current_task = ct }

reschedule_stacked :
    (m : Tasks) (c : ℕ) (q z : List ℕ) (ct : ℕ)
    → 0 < kstack_in m c
    → reschedule_current (at m (some c) q z ct)
      ≡ at (Map.modify c (set_state ready) m) none (q ++ c ∷ []) z ct
unfolding reschedule_current
reschedule_stacked m c q z ct h = ground arith

pick_turn :
    (m : Tasks) (c : ℕ) (q z : List ℕ) (ct : ℕ)
    → Stacked m (q ++ c ∷ [])
    → let s = (pick_next_task (at m none (q ++ c ∷ []) z ct)).0 in (line s ≡ q ++ c ∷ []) × Live s
unfolding pick_next_task
pick_turn m c [] z ct h =
    (refl, record { busy = λ e. cc; stacked = Stacked-set_state m (c ∷ []) c running h })
pick_turn m c (t ∷ q) z ct h =
    (refl, record { busy = λ e. cc; stacked = Stacked-set_state m (t ∷ q ++ c ∷ []) t running h })

schedule-turn-at :
    (m : Tasks) (cur : Option ℕ) (q z : List ℕ) (ct : ℕ)
    → Live (at m cur q z ct)
    → let s = (schedule (at m cur q z ct)).0 in (line s ≡ turn (line_of cur q)) × Live s
unfolding schedule turn
schedule-turn-at m none q z ct v = absurd (v.busy refl)
schedule-turn-at m (some c) q z ct v = rw (reschedule_stacked m c q z ct v.stacked.0) (
    pick_turn (Map.modify c (set_state ready) m) c q z ct (
      Stacked-set_state m (q ++ c ∷ []) c ready
        (All-append _ q (c ∷ []) v.stacked.1 (v.stacked.0, tt))))

-- One scheduling moves the task on the CPU to the end of the line.
pub schedule-turn :
    (s : Sched) → Live s → (line (schedule s).0 ≡ turn (line s)) × Live (schedule s).0
schedule-turn s v = schedule-turn-at s.tasks s.current s.queue s.zombies s.current_task v

unfoldable pub schedules : ℕ → Sched → Sched
schedules zero s = s
schedules (suc n) s = schedules n (schedule s).0

front_of_line :
    (cur : Option ℕ) (q rest : List ℕ) (t : ℕ)
    → cur ≢ none
    → line_of cur q ≡ t ∷ rest
    → cur ≡ some t
front_of_line none q rest t h e = absurd (h refl)
front_of_line (some c) q rest t h e = cc

-- Where some task runs and every task in the line has a kernel stack: a task that stands behind k places
-- of the line, that of the running task counted, is the running one after exactly k schedulings.
pub gets_turn :
    (before : List ℕ) (s : Sched) (t : ℕ) (after : List ℕ)
    → Live s
    → line s ≡ before ++ t ∷ after
    → (schedules (length before) s).current ≡ some t
unfolding schedules
gets_turn [] s t after v e = front_of_line s.current s.queue after t v.busy e
gets_turn (b ∷ before) s t after v e =
    let step = schedule-turn s v in
    gets_turn before (schedule s).0 t (after ++ b ∷ []) step.1
      (unfold turn in step.0 ∙ ap turn e ∙ append_assoc before (t ∷ after) (b ∷ []))
