-- ===== src/Process/Orphan.antt =====
-- A parent that sleeps in SYS_WAIT of kernel/src/syscall.rs: `block_current_and_switch` takes it out of
-- the scheduler, and SYS_EXIT looks for the parent in the scheduler.
use serix.Base.{
  ℕ, ◌≡◌, ◌≢◌, refl, subst, Bool, true, false, List, [], ◌∷◌, ◌++◌, Option, none, some, arith,
  if◌then◌else◌, ◌==◌, All-append, Absent,
}
use serix.Sched.{
  Sched, TaskCb, enqueue, wake_task, pick_next_task, reschedule_current, preempt,
  block_current_and_switch, find, find_task_by_id, find_zombie_child, take_first, is_zombie_child,
  push_zombie, zombie, field, update,
}
use serix.Sched.State.{line, line_of}
use serix.Process.{
  Kernel, wake_parent, exit_task, sys_exit, wait_round, wait_allowed, sys_wait, returns, sleeps,
  Round, on_current, retain_ne, status_word, errno_echild,
}

module _ (p : ℕ) where
  -- `p` neither runs nor is queued.
  abbrev pub Gone : Sched → Type 0
  Gone s = Absent p (line s)

  if-Gone : (b : Bool) (s u : Sched) → Gone s → Gone u → Gone (if b then s else u)
  if-Gone true s u g h = g
  if-Gone false s u g h = h

  pub enqueue-Gone : (t : ℕ) (s : Sched) → t ≢ p → Gone s → Gone (enqueue t s)
  unfolding enqueue
  enqueue-Gone t s ne g = go s.current g
    where
      go :
          (cur : Option ℕ)
          → Absent p (line_of cur s.queue)
          → Absent p (line_of cur (s.queue ++ t ∷ []))
      go none h = All-append _ s.queue (t ∷ []) h (ne, tt)
      go (some c) h = (h.0, All-append _ s.queue (t ∷ []) h.1 (ne, tt))

  pick-Gone : (s : Sched) → Gone s → Gone (pick_next_task s).0
  unfolding pick_next_task
  pick-Gone s g = go s.current s.queue g
    where
      go :
          (cur : Option ℕ) (q : List ℕ)
          → Absent p (line_of cur q)
          → Gone (pick_next_task (record s { current = cur; queue = q })).0
      go none [] h = h
      go none (t ∷ q) h = h
      go (some c) [] h = h
      go (some c) (t ∷ q) h = h.1

  reschedule-Gone : (s : Sched) → Gone s → Gone (reschedule_current s)
  unfolding reschedule_current
  reschedule-Gone s g = go s.current g
    where
      go :
          (cur : Option ℕ)
          → Absent p (line_of cur s.queue)
          → Gone (reschedule_current (record s { current = cur }))
      go none h = h
      go (some c) h =
          let off : Sched = record s { current = none } in
          if-Gone (field (λ cb. cb.kstack) 0 off c == 0) off (enqueue c off) h.1
            (enqueue-Gone c off h.0 h.1)

  pub preempt-Gone : (s : Sched) → Gone s → Gone (preempt s).0
  unfolding preempt
  preempt-Gone s g = let h = pick-Gone (reschedule_current s) (reschedule-Gone s g) in ground arith

  pub block-Gone : (s : Sched) → Gone s → Gone (block_current_and_switch s).0
  unfolding block_current_and_switch
  block-Gone s g = go s.current s.queue g
    where
      go :
          (cur : Option ℕ) (q : List ℕ)
          → Absent p (line_of cur q)
          → Gone (block_current_and_switch (record s { current = cur; queue = q })).0
      go none q h = h
      go (some c) [] h = h
      go (some c) (t ∷ q) h = h.1

  -- Who is found is in the queue.
  find-ne : (t u : ℕ) (q : List ℕ) → find t q ≡ some u → Absent p q → u ≢ p
  unfolding find
  find-ne t u [] e a = cc
  find-ne t u (x ∷ q) e a = ground (arith, find-ne t u q)

  find_task_by_id-ne :
      (t u : ℕ) (cur : Option ℕ) (s : Sched)
      → s.current ≡ cur
      → find_task_by_id t s ≡ some u
      → Gone s
      → u ≢ p
  unfolding find_task_by_id
  find_task_by_id-ne t u none s c e g =
      find-ne t u s.queue (ground arith) (subst (λ o. Absent p (line_of o s.queue)) c g)
  find_task_by_id-ne t u (some x) s c e g =
      let a = subst (λ o. Absent p (line_of o s.queue)) c g in
      ground (arith, find-ne t u s.queue, a.0, a.1)

  wake_parent-Gone : (parent : ℕ) (s : Sched) → Gone s → Gone (wake_parent parent s)
  unfolding wake_parent
  wake_parent-Gone parent s g =
      go (find_task_by_id parent s) (λ u e. find_task_by_id-ne parent u s.current s refl e g)
    where
      go :
          (found : Option ℕ)
          → ((u : ℕ) → found ≡ some u → u ≢ p)
          → Gone (elim found [
            | none ↦ s
            | some par ↦
                if field (λ cb. cb.waiting_for_child) false s par
                then wake_task par (update (λ cb. record cb { waiting_for_child = false }) par s)
                else s
          ])
      go none h = g
      go (some par) h =
          let s' = update (λ cb. record cb { waiting_for_child = false }) par s in
          if-Gone (field (λ cb. cb.waiting_for_child) false s par) (wake_task par s') s
            (enqueue-Gone par s' (h par refl) g) g

  exit_task-Gone : (status t : ℕ) (s : Sched) → Gone s → Gone (exit_task status t s).0
  unfolding exit_task
  exit_task-Gone status t s g =
      let s1 = update (λ cb. record cb { exit_status = some status; state = zombie }) t s in
      let parent = field (λ cb. cb.parent_id) 0 s1 t in
      let s2 = if parent == 0 then s1 else wake_parent parent s1 in
      pick-Gone (push_zombie t s2)
        (if-Gone (parent == 0) s1 (wake_parent parent s1) g (wake_parent-Gone parent s1 g))

  if_round-Gone :
      (b : Bool) (x y : Sched × Round) → Gone x.0 → Gone y.0 → Gone (if b then x else y).0
  if_round-Gone true x y g h = g
  if_round-Gone false x y g h = h

  on_current-Gone : (f : TaskCb → TaskCb) (s : Sched) → Gone s → Gone (on_current f s)
  on_current-Gone f s g = go s.current g
    where
      go :
          (cur : Option ℕ)
          → Absent p (line_of cur s.queue)
          → Gone (on_current f (record s { current = cur }))
      go none h = h
      go (some c) h = h

  find_zombie_child-Gone :
      (parent child : ℕ) (s : Sched) → Gone s → Gone (find_zombie_child parent child s).0
  unfolding find_zombie_child
  find_zombie_child-Gone parent child s g =
      go (take_first (is_zombie_child parent child s) s.zombies)
    where
      go :
          (r : Option (ℕ × List ℕ))
          → Gone
              (elim r as (λ _. Sched × Option ℕ) [
                | none ↦ (s, none)
                | some r ↦ (record s { zombies = r.1 }, some r.0)
              ]).0
      go none = g
      go (some r) = g

  wait_round-Gone :
      (pid : ℕ) (wnohang : Bool) (s : Sched) → Gone s → Gone (wait_round pid wnohang s).0
  unfolding wait_round
  wait_round-Gone pid wnohang s g =
      let found = find_zombie_child s.current_task pid s in
      go found.0 found.1 (find_zombie_child-Gone s.current_task pid s g)
    where
      go :
          (s' : Sched) (r : Option ℕ)
          → Gone s'
          → Gone
              (elim r as (λ _. Sched × Round) [
                | some z ↦ (
                  on_current (λ cb. record cb { children = retain_ne z cb.children }) s',
                  returns z (some (status_word (field (λ cb. cb.exit_status) none s' z))),
                )
                | none ↦
                    if wnohang
                    then (s', returns 0 none)
                    else (let (s'', sw) =
                          block_current_and_switch
                            (on_current (λ cb. record cb { waiting_for_child = true }) s') in
                        (s'', sleeps sw))
              ]).0
      go s' (some z) h =
          on_current-Gone (λ cb. record cb { children = retain_ne z cb.children }) s' h
      go s' none h =
          let asleep = on_current (λ cb. record cb { waiting_for_child = true }) s' in
          let blocked = block_current_and_switch asleep in
          if_round-Gone wnohang (s', returns 0 none) (blocked.0, sleeps blocked.1) h
            (block-Gone asleep
              (on_current-Gone (λ cb. record cb { waiting_for_child = true }) s' h))

  pub sys_wait-Gone :
      (pid : ℕ) (wnohang : Bool) (s : Sched) → Gone s → Gone (sys_wait pid wnohang s).0
  unfolding sys_wait
  sys_wait-Gone pid wnohang s g =
      if_round-Gone (wait_allowed pid s) (wait_round pid wnohang s) (s, returns errno_echild none)
        (wait_round-Gone pid wnohang s g) g

  pub sys_exit-Gone :
      {I : Type 0} (status : ℕ) (k : Kernel I) → Gone k.sched → Gone (sys_exit status k).0.sched
  unfolding sys_exit
  sys_exit-Gone {I} status k g = go k.sched.current g
    where
      go :
          (cur : Option ℕ)
          → Absent p (line_of cur k.sched.queue)
          → Gone (sys_exit status (record k { sched = record k.sched { current = cur } })).0.sched
      go none h = h
      go (some t) h = exit_task-Gone status t (record k.sched { current = none }) h.1
