-- ===== src/Ipc/Syscalls.antt =====
-- SYS_SEND and SYS_RECV of kernel/src/syscall.rs on the ports of ipc/src/lib.rs. User memory is read
-- through a function from addresses to bytes; what is written is returned.
pub mod Transfer
use serix.Base.{
  ℕ, zero, suc, ◌+◌, ◌-◌, Bool, true, false, not, List, [], ◌∷◌, ◌++◌, Option, none, some,
  if◌then◌else◌, ltb, length, get_elem?, set, take, replicate,
}
use serix.Syscall.{is_user_accessible, errno_efault, errno_einval, errno_eagain, errno_enoent}
use serix.Ipc.{Message, Port, IpcSpace, max_msg_size, send, receive, get_port}

-- `copy_nonoverlapping` out of user memory
unfoldable pub copy_in : (ℕ → ℕ) → ℕ → ℕ → List ℕ
copy_in mem ptr zero = []
copy_in mem ptr (suc n) = mem ptr ∷ copy_in mem (ptr + 1) n

-- The port behind a handle, and its place in the store written back.
abbrev pub put_port : ℕ → Port → IpcSpace → IpcSpace
put_port h p s = record s { store = set s.store h p }

abbrev pub port_at : ℕ → IpcSpace → Option (ℕ × Port)
port_at id s = elim (get_port id s) [
  | none ↦ none
  | some h ↦ elim (get_elem? s.store h) [ none ↦ none | some p ↦ some (h, p) ]
]

-- The message that SYS_SEND builds: the payload in a buffer of 128 bytes.
abbrev pub build : ℕ → (ℕ → ℕ) → ℕ → ℕ → ℕ → Message
build cur mem msg_type ptr len = record {
  sender_id = cur;
  id = msg_type;
  len = len;
  bytes = copy_in mem ptr len ++ replicate (max_msg_size - len) 0;
}

-- SYS_SEND: the result, and the receiver woken.
unfoldable pub sys_send : ℕ → (ℕ → ℕ) → ℕ → ℕ → ℕ → ℕ → IpcSpace → IpcSpace × ℕ × Option ℕ
unfolding send get_port copy_in
sys_send cur mem port_id msg_type ptr len s =
    if ltb max_msg_size len
    then (s, errno_einval, none)
    else if not (is_user_accessible ptr len)
    then (s, errno_efault, none)
    else elim (port_at port_id s) [
      | none ↦ (s, errno_enoent, none)
      | some (h, p) ↦
          let (p', done, woken) = send (build cur mem msg_type ptr len) p in
          (put_port h p' s, if done then 0 else errno_eagain, woken)
    ]

-- SYS_RECV: the result, and the bytes written to user memory with their address.
unfoldable pub sys_recv : ℕ → ℕ → IpcSpace → IpcSpace × ℕ × Option (ℕ × List ℕ)
unfolding receive get_port
sys_recv port_id out_ptr s = elim (port_at port_id s) [
  | none ↦ (s, errno_enoent, none)
  | some (h, p) ↦
      let (p', got) = receive p in
      let s' = put_port h p' s in
      elim got [
        | none ↦ (s', errno_eagain, none)
        | some m ↦
            if not (is_user_accessible out_ptr m.len)
            then (s', errno_efault, none)
            else (s', m.id, some (out_ptr, take m.len m.bytes))
      ]
]
