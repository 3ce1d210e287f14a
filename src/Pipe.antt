-- ===== src/Pipe.antt =====
-- kernel/src/pipe.rs: the ring buffer shared by the two ends of a pipe, and the INode operations of
-- each end. An `Arc<Mutex<TaskCb>>` in `waiters` is the task's number; an operation that wakes tasks
-- returns their numbers in the order of the calls of `wake_task`.
pub mod Ring
pub mod Channel
pub mod Fifo
pub mod Wakeup
pub mod Returns
mod Tests
use serix.Base.{
  ℕ, zero, suc, ◌+◌, ◌-◌, ◌%◌, ◌^◌, min, Bool, true, false, List, [], ◌∷◌, ◌++◌, Option, none, some,
  length, take, drop, replicate, ltb, ◌==◌, ◌||◌, if◌then◌else◌,
}
use serix.Circular.{store, fetch}

-- PIPE_BUFSZ
abbrev pub pipe_bufsz : ℕ
pipe_bufsz = 4096

abbrev pub usize_max : ℕ
usize_max = 2 ^ 64 - 1

pub record PipeInner : Type 0 where
  pub buf : List ℕ
  pub read_pos : ℕ
  pub count : ℕ
  pub write_closed : Bool
  pub read_closed : Bool
  pub waiters : List ℕ

unfoldable pub new : PipeInner
new = record {
  buf = replicate pipe_bufsz 0;
  read_pos = 0;
  count = 0;
  write_closed = false;
  read_closed = false;
  waiters = [];
}

abbrev pub write_pos : PipeInner → ℕ
write_pos p = (p.read_pos + p.count) % pipe_bufsz

-- `usize` subtraction; `count` never exceeds the size (`Ring.IsValid`).
abbrev pub space : PipeInner → ℕ
space p = pipe_bufsz - p.count

-- Neither `read_pos` nor `count` changes inside the loop, so `write_pos()` is read once.
pub push : PipeInner → List ℕ → PipeInner × ℕ
push p src =
    let n = min (length src) (space p) in
    (record p { buf = store pipe_bufsz (write_pos p) 0 (take n src) p.buf; count = p.count + n }, n)

-- The second component is `dst` after the call.
pub pop : PipeInner → List ℕ → PipeInner × List ℕ × ℕ
pop p dst =
    let n = min (length dst) p.count in
    (
      record p { read_pos = (p.read_pos + n) % pipe_bufsz; count = p.count - n },
      fetch pipe_bufsz p.read_pos 0 n p.buf ++ drop n dst,
      n,
    )

-- What one round of the loop of `PipeReadEnd::read` does: it returns with the buffer and a count,
-- or blocks the task.
pub data Round : Type 0 where
  returns : List ℕ → ℕ → Round
  blocks : Round

abbrev pub join : Option ℕ → List ℕ → List ℕ
join none ws = ws
join (some t) ws = ws ++ t ∷ []

-- `cur` is `current_task_arc()`.
unfoldable pub read_round : PipeInner → Option ℕ → List ℕ → PipeInner × Round
unfolding pop
read_round p cur dst =
    if ltb 0 p.count
    then (let (p', dst', n) = pop p dst in (p', returns dst' n))
    else if p.write_closed
    then (p, returns dst 0)
    else (record p { waiters = join cur p.waiters }, blocks)

-- `PipeWriteEnd::write`: the new state, the result, and the readers woken.
pub write : PipeInner → List ℕ → PipeInner × ℕ × List ℕ
unfolding push
write p src =
    if p.read_closed
    then (p, usize_max, [])
    else (let (p', n) = push p src in (record p' { waiters = [] }, n, p'.waiters))

-- `Drop for PipeReadEnd`
pub drop_read_end : PipeInner → PipeInner
drop_read_end p = record p { read_closed = true }

-- `Drop for PipeWriteEnd`, with the readers woken
pub drop_write_end : PipeInner → PipeInner × List ℕ
drop_write_end p = (record p { write_closed = true; waiters = [] }, p.waiters)

abbrev pub elem : ℕ → List ℕ → Bool
elem t [] = false
elem t (x ∷ xs) = x == t || elem t xs

-- What other tasks do to the pipe while its reader is off the CPU: they write, close the write end, or
-- read themselves.
pub data Action : Type 0 where
  writes : List ℕ → Action
  drops_writer : Action
  reads : Option ℕ → List ℕ → Action

-- The new state and the readers woken.
unfoldable pub act : PipeInner → Action → PipeInner × List ℕ
act p (writes src) = let (p', n, woken) = write p src in (p', woken)
act p drops_writer = drop_write_end p
act p (reads cur dst) = ((read_round p cur dst).0, [])

unfoldable pub acts : PipeInner → List Action → PipeInner × List ℕ
acts p [] = (p, [])
acts p (a ∷ as') =
    let (p', woken) = act p a in let (p'', rest) = acts p' as' in (p'', woken ++ rest)

-- A round that returns ends the loop; one that blocks goes on with `retry`.
abbrev pub settle :
    PipeInner × Round
    → (PipeInner → Option (PipeInner × List ℕ × ℕ))
    → Option (PipeInner × List ℕ × ℕ)
settle (p, returns dst n) retry = some (p, dst, n)
settle (p, blocks) retry = retry p

-- The reader `t` is blocked. After each batch of actions it runs its next round if the batch woke it, and
-- sleeps on if not. `none` means that it still waits when the schedule ends.
unfoldable pub asleep :
    PipeInner → ℕ → List ℕ → List (List Action) → Option (PipeInner × List ℕ × ℕ)
asleep p t dst [] = none
asleep p t dst (b ∷ bs) =
    let (p', woken) = acts p b in
    let again = settle (read_round p' (some t) dst) (λ p''. asleep p'' t dst bs) in
    let still = asleep p' t dst bs in if elem t woken then again else still

-- `PipeReadEnd::read` of the task `t`, over a schedule of what happens while it is blocked. A round is one
-- step: nothing runs between the release of the lock and the switch to another task.
unfoldable pub read : PipeInner → ℕ → List ℕ → List (List Action) → Option (PipeInner × List ℕ × ℕ)
read p t dst bs = settle (read_round p (some t) dst) (λ p'. asleep p' t dst bs)
