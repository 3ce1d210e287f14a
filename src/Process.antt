-- ===== src/Process.antt =====
-- The end of a process: SYS_EXIT and SYS_WAIT of kernel/src/syscall.rs, over the scheduler and the
-- descriptor table. A status is the bit pattern of an `i32`, a pid that of an `i64`.
pub mod Reap
pub mod Orphan
pub mod NeverWoken
mod Tests
use mathlib.Core.Option
use serix.Base.{
  ℕ, ◌+◌, ◌-◌, ◌*◌, ◌%◌, ◌^◌, Bool, true, false, not, ◌&&◌, List, [], ◌∷◌, Option, none, some,
  if◌then◌else◌, ◌==◌, ltb,
}
use serix.Sched.{
  Sched, TaskCb, zombie, field, update, take_current, find_task_by_id, wake_task, push_zombie,
  pick_next_task, block_current_and_switch, find_zombie_child, any_child, Switch, hook_of,
}
use serix.Fd.{FdTable, cleanup}

pub record Kernel (I : Type 0) : Type 0 where
  pub sched : Sched
  pub fds : FdTable I

unfoldable pub wake_parent : ℕ → Sched → Sched
unfolding find_task_by_id wake_task
wake_parent parent s = elim (find_task_by_id parent s) [
  | none ↦ s
  | some par ↦
      if field (λ cb. cb.waiting_for_child) false s par
      then wake_task par (update (λ cb. record cb { waiting_for_child = false }) par s)
      else s
]

-- SYS_EXIT on the scheduler, once the current task `t` is taken off the CPU.
unfoldable pub exit_task : ℕ → ℕ → Sched → Sched × Option ℕ
unfolding wake_parent push_zombie pick_next_task
exit_task status t s =
    let s1 = update (λ cb. record cb { exit_status = some status; state = zombie }) t s in
    let parent = field (λ cb. cb.parent_id) 0 s1 t in
    let s2 = if parent == 0 then s1 else wake_parent parent s1 in pick_next_task (push_zombie t s2)

module _ {I : Type 0} where
  -- SYS_EXIT: the task that the CPU goes to, if one is ready. `cleanup` closes the descriptors of the task;
  -- what the Drop of a last reference does then, such as the waking of the readers of a pipe, is left out.
  unfoldable pub sys_exit : ℕ → Kernel I → Kernel I × Option ℕ
  unfolding exit_task take_current cleanup
  sys_exit status k =
      let (s, cur) = take_current k.sched in
      elim cur [
        | none ↦ (record k { sched = s }, none)
        | some t ↦
            let (s', next) = exit_task status t s in
            (record { sched = s'; fds = cleanup t k.fds }, next)
      ]

unfoldable pub contains : ℕ → List ℕ → Bool
contains x [] = false
contains x (y ∷ ys) = if y == x then true else contains x ys

unfoldable pub retain_ne : ℕ → List ℕ → List ℕ
retain_ne x [] = []
retain_ne x (y ∷ ys) = if y == x then retain_ne x ys else y ∷ retain_ne x ys

abbrev pub children_of : Sched → List ℕ
children_of s = elim s.current [ none ↦ [] | some c ↦ field (λ cb. cb.children) [] s c ]

-- `pid > 0` of an `i64`
abbrev pub positive : ℕ → Bool
positive pid = ltb 0 pid && ltb pid (2 ^ 63)

unfoldable pub is_empty : List ℕ → Bool
is_empty [] = true
is_empty (x ∷ xs) = false

-- The check before the loop of SYS_WAIT.
unfoldable pub wait_allowed : ℕ → Sched → Bool
unfolding contains is_empty
wait_allowed pid s =
    if positive pid then contains pid (children_of s) else not (is_empty (children_of s))

-- ERRNO_ECHILD
abbrev pub errno_echild : ℕ
errno_echild = 2 ^ 64 - 1 - 9

-- How a round of the loop of SYS_WAIT ends: with a result and the status word for the caller's
-- buffer, or asleep.
pub data Round : Type 0 where
  returns : ℕ → Option ℕ → Round
  sleeps : Option Switch → Round

-- `(exit_status & 0xFF) << 8`
abbrev pub status_word : Option ℕ → ℕ
status_word none = 0
status_word (some st) = (st % 256) * 256

abbrev pub on_current : (TaskCb → TaskCb) → Sched → Sched
on_current f s = elim s.current [ none ↦ s | some c ↦ update f c s ]

-- One round of the loop; the status word is what would be written through a valid pointer.
unfoldable pub wait_round : ℕ → Bool → Sched → Sched × Round
unfolding find_zombie_child block_current_and_switch retain_ne
wait_round pid wnohang s =
    let (s', found) = find_zombie_child s.current_task pid s in
    elim found [
      | some z ↦ (
        on_current (λ cb. record cb { children = retain_ne z cb.children }) s',
        returns z (some (status_word (field (λ cb. cb.exit_status) none s' z))),
      )
      | none ↦
          if wnohang
          then (s', returns 0 none)
          else (let (s'', sw) =
                block_current_and_switch
                  (on_current (λ cb. record cb { waiting_for_child = true }) s') in
              (s'', sleeps sw))
    ]

-- SYS_WAIT up to its first return or sleep.
unfoldable pub sys_wait : ℕ → Bool → Sched → Sched × Round
unfolding wait_allowed wait_round
sys_wait pid wnohang s =
    if wait_allowed pid s then wait_round pid wnohang s else (s, returns errno_echild none)
