-- ===== src/Pipe/Channel.antt =====
-- A pipe as its users see it: a bounded queue of bytes with two ends. The operations of
-- kernel/src/pipe.rs implement it, call by call and over every sequence of calls.
use serix.Base.{
  ℕ, ◌-◌, ◌≡◌, refl, Bool, true, List, [], ◌∷◌, ◌++◌, Option, arith, min, length, take, drop, ltb,
  if◌then◌else◌,
}
use serix.Pipe.{
  PipeInner, pipe_bufsz, usize_max, Round, returns, blocks, join, read_round, write, drop_read_end,
  drop_write_end,
}
use serix.Pipe.Ring.{
  IsValid, contents, length-contents, push-contents, fetch-pop, contents-pop, push-IsValid,
  pop-IsValid,
}

pub record Channel : Type 0 where
  pub queue : List ℕ
  pub writer_gone : Bool
  pub reader_gone : Bool
  pub waiting : List ℕ

pub data Call : Type 0 where
  reads : Option ℕ → List ℕ → Call
  writes : List ℕ → Call
  drops_reader : Call
  drops_writer : Call

pub data Reply : Type 0 where
  got : List ℕ → ℕ → Reply
  waits : Reply
  wrote : ℕ → List ℕ → Reply
  dropped : List ℕ → Reply

-- The specification: what each call does to the queue.
unfoldable pub spec : Channel → Call → Channel × Reply
spec c (reads cur dst) =
    let n = min (length dst) (length c.queue) in
    if ltb 0 (length c.queue)
    then (record c { queue = drop n c.queue }, got (take n c.queue ++ drop n dst) n)
    else if c.writer_gone
    then (c, got dst 0)
    else (record c { waiting = join cur c.waiting }, waits)
spec c (writes src) =
    let n = min (length src) (pipe_bufsz - length c.queue) in
    if c.reader_gone
    then (c, wrote usize_max [])
    else (record c { queue = c.queue ++ take n src; waiting = [] }, wrote n c.waiting)
spec c drops_reader = (record c { reader_gone = true }, dropped [])
spec c drops_writer = (record c { writer_gone = true; waiting = [] }, dropped c.waiting)

abbrev reply : Round → Reply
reply (returns dst n) = got dst n
reply blocks = waits

-- The code: the INode operations, by the call.
unfoldable pub code : PipeInner → Call → PipeInner × Reply
unfolding read_round write drop_read_end drop_write_end
code p (reads cur dst) = let (p', r) = read_round p cur dst in (p', reply r)
code p (writes src) = let (p', n, woken) = write p src in (p', wrote n woken)
code p drops_reader = (drop_read_end p, dropped [])
code p drops_writer = let (p', woken) = drop_write_end p in (p', dropped woken)

unfoldable pub view : PipeInner → Channel
view p = record {
  queue = contents p;
  writer_gone = p.write_closed;
  reader_gone = p.read_closed;
  waiting = p.waiters;
}

pub code-IsValid : (p : PipeInner) (c : Call) → IsValid p → IsValid (code p c).0
unfolding code
code-IsValid p (reads cur dst) v = ground (arith, pop-IsValid p dst v)
code-IsValid p (writes src) v = ground (arith, push-IsValid p src v)
code-IsValid p drops_reader v = record {
  storage = v.storage;
  position = v.position;
  bounded = v.bounded;
}
code-IsValid p drops_writer v = record {
  storage = v.storage;
  position = v.position;
  bounded = v.bounded;
}

code_refines :
    (p : PipeInner) (c : Call) → IsValid p → (view (code p c).0, (code p c).1) ≡ spec (view p) c
unfolding code spec view
code_refines p (reads cur dst) v =
    rw (length-contents p) (ground (arith, fetch-pop p dst, contents-pop p dst))
code_refines p (writes src) v = rw (length-contents p) (ground (arith, push-contents p src v))
code_refines p drops_reader v = refl
code_refines p drops_writer v = refl

unfoldable pub run : PipeInner → List Call → PipeInner × List Reply
run p [] = (p, [])
run p (c ∷ cs) = let (p', r) = code p c in let (p'', rs) = run p' cs in (p'', r ∷ rs)

unfoldable pub spec_run : Channel → List Call → Channel × List Reply
spec_run ch [] = (ch, [])
spec_run ch (c ∷ cs) =
    let (ch', r) = spec ch c in let (ch'', rs) = spec_run ch' cs in (ch'', r ∷ rs)

-- From any state in which the buffer has its 4096 bytes and the positions are in range, every
-- sequence of reads, writes and closings of ends gives the replies (bytes, counts, blockings, tasks
-- woken) of the bounded byte queue, and ends in the state that holds that queue.
pub run_refines :
    (p : PipeInner) (cs : List Call)
    → IsValid p
    → (view (run p cs).0, (run p cs).1) ≡ spec_run (view p) cs
unfolding run spec_run
run_refines p [] v = refl
run_refines p (c ∷ cs) v =
    rw (← code_refines p c v, ← run_refines (code p c).0 cs (code-IsValid p c v))
