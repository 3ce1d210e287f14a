-- ===== src/Ipc.antt =====
-- ipc/src/lib.rs: ports with bounded message queues. An `Arc<Port>` is a handle, an index into the
-- ports made so far; a blocked receiver is its task's number.
pub mod Queue
pub mod Syscalls
mod Tests
use serix.Base.{
  ℕ, ◌+◌, ◌-◌, ◌%◌, Bool, true, false, List, [], ◌∷◌, ◌++◌, Option, none, some, if◌then◌else◌, leb,
  length, get_elem?, set,
}
use serix.Base.Map
use serix.Base.Map.{nat_keyed}

abbrev pub max_msg_size : ℕ
max_msg_size = 128

abbrev pub port_queue_len : ℕ
port_queue_len = 32

pub record Message : Type 0 where
  pub sender_id : ℕ
  pub id : ℕ
  pub len : ℕ
  pub bytes : List ℕ

pub record Port : Type 0 where
  pub id : ℕ
  pub queue : List Message
  pub waiting_receivers : List ℕ

-- `Port::new`
abbrev pub new_port : ℕ → Port
new_port id = record { id = id; queue = []; waiting_receivers = [] }

-- `Port::send`: whether the message was taken, and the receiver woken.
unfoldable pub send : Message → Port → Port × Bool × Option ℕ
send msg p =
    if leb port_queue_len (length p.queue)
    then (p, false, none)
    else (let p' = record p { queue = p.queue ++ msg ∷ [] } in
        elim p.waiting_receivers [
          | [] ↦ (p', true, none)
          | t ∷ ts ↦ (record p' { waiting_receivers = ts }, true, some t)
        ])

-- `Port::receive`
unfoldable pub receive : Port → Port × Option Message
receive p = elim p.queue [ [] ↦ (p, none) | m ∷ q ↦ (record p { queue = q }, some m) ]

-- One round of the loop of `Port::receive_blocking`: a message, or the current task goes on the wait
-- list. With no current task the round spins.
pub data Round : Type 0 where
  message : Message → Round
  blocks spins : Round

unfoldable pub receive_round : Option ℕ → Port → Port × Round
receive_round cur p = elim p.queue [
  | m ∷ q ↦ (record p { queue = q }, message m)
  | [] ↦ elim cur [
    | none ↦ (p, spins)
    | some t ↦ (record p { waiting_receivers = p.waiting_receivers ++ t ∷ [] }, blocks)
  ]
]

-- `IpcSpace`, and the ports behind the handles.
pub record IpcSpace : Type 0 where
  pub ports : List (ℕ × ℕ)
  pub store : List Port

unfoldable pub new_space : IpcSpace
new_space = record { ports = []; store = [] }

-- `create_port`: the map entry is replaced, a port that is held elsewhere lives on.
unfoldable pub create_port : ℕ → IpcSpace → IpcSpace × ℕ
create_port id s = (
  record { ports = Map.insert id (length s.store) s.ports; store = s.store ++ new_port id ∷ [] },
  length s.store,
)

-- `get_port`
unfoldable pub get_port : ℕ → IpcSpace → Option ℕ
get_port id s = Map.get id s.ports
