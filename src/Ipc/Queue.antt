-- ===== src/Ipc/Queue.antt =====
-- The message queue of a port of ipc/src/lib.rs over sequences of calls.
use serix.Base.{
  ℕ, ◌≤◌, ◌≡◌, sym, Bool, true, List, [], ◌∷◌, ◌++◌, Option, some, arith, length, length-append,
  append-nil, append_assoc,
}
use serix.Ipc.{Message, Port, port_queue_len, send, receive, receive_round, Round, message}

pub data Call : Type 0 where
  sends : Message → Call
  receives : Call
  receives_blocking : Option ℕ → Call

pub data Reply : Type 0 where
  sent : Bool → Option ℕ → Reply
  received : Option Message → Reply
  round : Round → Reply

unfoldable pub call : Port → Call → Port × Reply
unfolding send receive receive_round
call p (sends m) = let (p', done, woken) = send m p in (p', sent done woken)
call p receives = let (p', m) = receive p in (p', received m)
call p (receives_blocking cur) = let (p', r) = receive_round cur p in (p', round r)

unfoldable pub run : Port → List Call → Port × List Reply
run p [] = (p, [])
run p (c ∷ cs) = let (p', r) = call p c in let (p'', rs) = run p' cs in (p'', r ∷ rs)

-- The messages that the receivers of a run are given.
unfoldable pub delivered : List Reply → List Message
delivered [] = []
delivered (received (some m) ∷ rs) = m ∷ delivered rs
delivered (round (message m) ∷ rs) = m ∷ delivered rs
delivered (_ ∷ rs) = delivered rs

-- The messages whose senders were told `true`.
unfoldable pub accepted : List Call → List Reply → List Message
accepted (sends m ∷ cs) (sent true woken ∷ rs) = m ∷ accepted cs rs
accepted (_ ∷ cs) (_ ∷ rs) = accepted cs rs
accepted _ _ = []

call-fifo :
    (p : Port) (c : Call) (cs : List Call) (rs : List Reply) (final : List Message)
    → delivered rs ++ final ≡ (call p c).0.queue ++ accepted cs rs
    → delivered ((call p c).1 ∷ rs) ++ final ≡ p.queue ++ accepted (c ∷ cs) ((call p c).1 ∷ rs)
unfolding call delivered accepted
call-fifo p (sends m) cs rs final h = ground (arith, append_assoc p.queue (m ∷ []) (accepted cs rs))
call-fifo p receives cs rs final h = ground arith
call-fifo p (receives_blocking cur) cs rs final h = ground arith

call-bounded :
    (p : Port) (c : Call)
    → length p.queue ≤ port_queue_len
    → length (call p c).0.queue ≤ port_queue_len
unfolding call
call-bounded p (sends m) h = ground (arith, length-append p.queue (m ∷ []))
call-bounded p receives h = ground arith
call-bounded p (receives_blocking cur) h = ground arith

-- On a port with at most 32 messages every sequence of sends and receives keeps that bound, and is a
-- first-in first-out queue: the messages handed to receivers, followed by those still queued, are the
-- messages queued at the start followed by those whose `send` returned true.
pub port_fifo :
    (p : Port) (cs : List Call)
    → length p.queue ≤ port_queue_len
    → (length (run p cs).0.queue ≤ port_queue_len)
      × (delivered (run p cs).1 ++ (run p cs).0.queue ≡ p.queue ++ accepted cs (run p cs).1)
unfolding run
port_fifo p [] h = (h, unfold delivered accepted in sym (append-nil p.queue))
port_fifo p (c ∷ cs) h =
    let ih = port_fifo (call p c).0 cs (call-bounded p c h) in
    (ih.0, call-fifo p c cs (run (call p c).0 cs).1 (run (call p c).0 cs).0.queue ih.1)
