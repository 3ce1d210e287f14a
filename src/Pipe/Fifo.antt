-- ===== src/Pipe/Fifo.antt =====
-- What goes into a pipe of kernel/src/pipe.rs comes out of it, in order.
use serix.Base.{
  ℕ, ◌-◌, ◌≡◌, sym, ap, ◌∙◌, Bool, true, List, [], ◌∷◌, ◌++◌, arith, min, length, take, drop,
  if◌then◌else◌, length-take, take-append_length, take-append-drop, append-nil, append_assoc,
}
use serix.Pipe.{PipeInner, pipe_bufsz}
use serix.Pipe.Ring.{IsValid, contents}
use serix.Pipe.Channel.{
  Channel, Call, reads, writes, drops_reader, drops_writer, Reply, got, wrote, spec, spec_run, run,
  view, run_refines,
}

-- The bytes that the readers of a run are given.
unfoldable pub delivered : List Reply → List ℕ
delivered [] = []
delivered (got dst n ∷ rs) = take n dst ++ delivered rs
delivered (_ ∷ rs) = delivered rs

-- The bytes that the writers of a run are told were taken; `gone` says that no reader is left.
unfoldable pub accepted : Bool → List Call → List Reply → List ℕ
accepted gone (writes src ∷ cs) (wrote n ws ∷ rs) =
    (if gone then [] else take n src) ++ accepted gone cs rs
accepted gone (drops_reader ∷ cs) (r ∷ rs) = accepted true cs rs
accepted gone (c ∷ cs) (r ∷ rs) = accepted gone cs rs
accepted gone _ _ = []

take-min-take :
    (m : ℕ) (q dst : List ℕ)
    → take (min m (length q)) (take (min m (length q)) q ++ dst) ≡ take (min m (length q)) q
take-min-take m q dst =
    let n = min m (length q) in
    let e : length (take n q) ≡ n = omega (arith, length-take n q) in
    ap (λ k. take k (take n q ++ dst)) (sym e) ∙ take-append_length (take n q) dst

spec_run-fifo :
    (ch : Channel) (cs : List Call)
    → delivered (spec_run ch cs).1 ++ (spec_run ch cs).0.queue
      ≡ ch.queue ++ accepted ch.reader_gone cs (spec_run ch cs).1
unfolding spec_run spec delivered accepted
spec_run-fifo ch [] = sym (append-nil _)
spec_run-fifo ch (reads cur dst ∷ cs) =
    let n = min (length dst) (length ch.queue) in
    ground (
      arith,
      spec_run-fifo (spec ch (reads cur dst)).0 cs,
      take-min-take (length dst) ch.queue (drop n dst),
      take-append-drop n ch.queue,
      append_assoc (take n ch.queue) (drop n ch.queue)
          (accepted ch.reader_gone cs (spec_run (spec ch (reads cur dst)).0 cs).1),
      append_assoc (take n ch.queue) (delivered (spec_run (spec ch (reads cur dst)).0 cs).1)
          (spec_run (spec ch (reads cur dst)).0 cs).0.queue,
    )
spec_run-fifo ch (writes src ∷ cs) =
    let ch' = (spec ch (writes src)).0 in
    let n = min (length src) (pipe_bufsz - length ch.queue) in
    ground (
      arith,
      spec_run-fifo ch' cs,
      append_assoc ch.queue (take n src) (accepted ch.reader_gone cs (spec_run ch' cs).1),
    )
spec_run-fifo ch (drops_reader ∷ cs) = spec_run-fifo (spec ch drops_reader).0 cs
spec_run-fifo ch (drops_writer ∷ cs) = spec_run-fifo (spec ch drops_writer).0 cs

-- In every run of calls on a well-formed pipe, the bytes delivered to the readers, followed by the
-- bytes still in the buffer, are the bytes in the buffer at the start followed by the bytes that
-- writers were told were taken: none is lost, repeated or reordered.
pub run-fifo :
    (p : PipeInner) (cs : List Call)
    → IsValid p
    → delivered (run p cs).1 ++ contents (run p cs).0
      ≡ contents p ++ accepted p.read_closed cs (run p cs).1
unfolding view
run-fifo p cs v =
    let e = run_refines p cs v in
    ap (λ s. delivered s.1 ++ s.0.queue) e
    ∙ spec_run-fifo (view p) cs
    ∙ ap (λ s. contents p ++ accepted p.read_closed cs s.1) (sym e)
