-- ===== src/Ipc/Syscalls/Transfer.antt =====
-- Messages from SYS_SEND to SYS_RECV (kernel/src/syscall.rs).
use mathlib.Core.Option
use serix.Base.{
  ℕ, zero, suc, ◌+◌, ◌-◌, ◌≤◌, ◌≡◌, refl, sym, ap, ◌∙◌, true, List, [], ◌∷◌, ◌++◌, some, arith,
  length, get_elem?, set, take, replicate, take-append_length,
}
use serix.Syscall.{is_user_accessible}
use serix.Ipc.{Port, IpcSpace, max_msg_size, send, receive, get_port}
use serix.Ipc.Syscalls.{copy_in, build, sys_send, sys_recv}

length-copy_in : (mem : ℕ → ℕ) (ptr n : ℕ) → length (copy_in mem ptr n) ≡ n
unfolding copy_in
length-copy_in mem ptr zero = refl
length-copy_in mem ptr (suc n) = ap suc (length-copy_in mem (ptr + 1) n)

-- The payload of a built message.
payload :
    (mem : ℕ → ℕ) (ptr len : ℕ) (pad : List ℕ)
    → take len (copy_in mem ptr len ++ pad) ≡ copy_in mem ptr len
payload mem ptr len pad =
    ap (λ n. take n (copy_in mem ptr len ++ pad)) (sym (length-copy_in mem ptr len))
    ∙ take-append_length (copy_in mem ptr len) pad

get_elem?-put :
    (ps : List Port) (h : ℕ) (p q : Port)
    → get_elem? ps h ≡ some p
    → get_elem? (set ps h q) h ≡ some q
get_elem?-put [] h p q e = cc
get_elem?-put (x ∷ ps) zero p q e = refl
get_elem?-put (x ∷ ps) (suc h) p q e = get_elem?-put ps h p q e

-- A message of 1 to 128 bytes sent to an existing port with an empty queue comes out of the next
-- SYS_RECV on it: the send returns 0, the receive returns the message type and writes the sender's
-- bytes, all of them and no others, and the port's queue is empty again.
pub send_then_recv :
    (cur port_id msg_type ptr len out h : ℕ) (mem : ℕ → ℕ) (s : IpcSpace) (p : Port)
    → get_port port_id s ≡ some h
    → get_elem? s.store h ≡ some p
    → p.queue ≡ []
    → len ≤ max_msg_size
    → is_user_accessible ptr len ≡ true
    → is_user_accessible out len ≡ true
    → let (s', sent, woken) = sys_send cur mem port_id msg_type ptr len s in
      let (s'', got, written) = sys_recv port_id out s' in
      (sent ≡ 0)
      × (got ≡ msg_type)
      × (written ≡ some (out, copy_in mem ptr len))
      × (Option.map (λ x. x.queue) (get_elem? s''.store h) ≡ some [])
unfolding sys_send sys_recv
send_then_recv cur port_id msg_type ptr len out h mem s p eh ep eq hl hp ho =
    let m = build cur mem msg_type ptr len in
    let p' = (send m p).0 in
    let put = get_elem?-put s.store h p p' ep in
    let body = payload mem ptr len (replicate (max_msg_size - len) 0) in
    let got = get_elem?-put (set s.store h p') h p' (receive p').0 put in
    (ground arith, ground (arith, put, body), ground (arith, put, body), ground (arith, put, got))
