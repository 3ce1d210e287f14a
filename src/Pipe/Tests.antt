-- ===== src/Pipe/Tests.antt =====
-- Runs of kernel/src/pipe.rs on concrete states.
use serix.Base.{◌≡◌, refl, inl, false, List, [], ◌∷◌, ◌++◌, some, arith, replicate}
use serix.Pipe.{PipeInner, writes, reads, read}
use serix.Circular.{store, fetch}
use serix.Pipe.Ring.{IsValid, contents}
use serix.Pipe.Channel
use serix.Pipe.Channel.{Call, view, code, run, spec_run, run_refines, Reply}
use serix.Pipe.Fifo.{delivered, accepted, run-fifo}
use serix.Pipe.Wakeup.{NoLostWakeup, run_sleepers, run-NoLostWakeup}
use serix.Pipe.Returns.{Finishes, effective, no_reads, read_returns}

-- Two bytes, 7 at the end of the storage and 9 at its start.
abbrev wrapped : PipeInner
wrapped = record {
  buf = 9 ∷ (replicate 4094 0 ++ 7 ∷ []);
  read_pos = 4095;
  count = 2;
  write_closed = false;
  read_closed = false;
  waiters = [];
}

abbrev calls : List Call
calls =
    Channel.reads (some 5) (0 ∷ 0 ∷ 0 ∷ [])
    ∷ Channel.reads (some 5) (0 ∷ [])
    ∷ Channel.writes (1 ∷ 2 ∷ [])
    ∷ []

wrapped-IsValid : IsValid wrapped
wrapped-IsValid = record { storage = refl; position = omega arith; bounded = omega arith }

run_refines_example :
    (view (run wrapped calls).0, (run wrapped calls).1) ≡ spec_run (view wrapped) calls
run_refines_example = run_refines wrapped calls wrapped-IsValid

run-fifo_example :
    delivered (run wrapped calls).1 ++ contents (run wrapped calls).0
    ≡ contents wrapped ++ accepted false calls (run wrapped calls).1
run-fifo_example = run-fifo wrapped calls wrapped-IsValid

run-NoLostWakeup_example :
    NoLostWakeup (run wrapped calls).0 (run_sleepers [] calls (run wrapped calls).1)
run-NoLostWakeup_example = run-NoLostWakeup wrapped [] calls (refl, inl refl)

-- Task 5 blocks on an empty pipe; task 6 reads the first byte that is written, and the second is left.
read_returns_example : Finishes (
    read
      (record wrapped { count = 0 })
      5
      (0 ∷ [])
      ((writes (2 ∷ []) ∷ reads (some 6) (0 ∷ []) ∷ []) ∷ ([] ++ writes (3 ∷ []) ∷ []) ∷ []))
unfolding effective no_reads
read_returns_example =
    read_returns (record wrapped { count = 0 }) 5 (0 ∷ [])
      ((writes (2 ∷ []) ∷ reads (some 6) (0 ∷ []) ∷ []) ∷ []) [] (writes (3 ∷ [])) [] [] refl refl
      refl

reading_wraps :
    (run wrapped calls).1
    ≡ Channel.got (7 ∷ 9 ∷ 0 ∷ []) 2 ∷ Channel.waits ∷ Channel.wrote 2 (5 ∷ []) ∷ []
unfolding run code store fetch
reading_wraps = refl
