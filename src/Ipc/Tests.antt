-- ===== src/Ipc/Tests.antt =====
-- Ports on concrete messages.
use mathlib.Core.Option
use serix.Base.{ℕ, ◌≡◌, refl, List, [], ◌∷◌, some, arith, get_elem?}
use serix.Base.Map
use serix.Base.Map.{nat_keyed}
use serix.Syscall.{is_user_accessible}
use serix.Ipc.{Message, Port, IpcSpace, get_port}
use serix.Ipc.Queue.{Call, sends, receives}
use serix.Ipc.Syscalls.{copy_in, sys_send, sys_recv}
use serix.Ipc.Syscalls.Transfer.{send_then_recv}

abbrev hello : Message
hello = record { sender_id = 4; id = 7; len = 2; bytes = 1 ∷ 2 ∷ [] }

abbrev port : List Message → Port
port q = record { id = 5; queue = q; waiting_receivers = 9 ∷ [] }

abbrev space : List Message → IpcSpace
space q = record { ports = (5, 0) ∷ []; store = port q ∷ [] }

abbrev calls : List Call
calls = sends hello ∷ receives ∷ receives ∷ []

-- Address `a` holds the byte a modulo nothing: its own number.
abbrev memory : ℕ → ℕ
memory a = a

send_then_recv_example :
    let (s', sent, woken) = sys_send 4 memory 5 7 100 3 (space []) in
    let (s'', got, written) = sys_recv 5 200 s' in
    (sent ≡ 0)
    × (got ≡ 7)
    × (written ≡ some (200, copy_in memory 100 3))
    × (Option.map (λ x. x.queue) (get_elem? s''.store 0) ≡ some [])
unfolding get_port Map.get is_user_accessible
send_then_recv_example =
    send_then_recv 4 5 7 100 3 200 0 memory (space []) (port []) refl refl refl (omega arith) refl
      refl
