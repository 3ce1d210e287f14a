-- ===== src/Syscall/Access.antt =====
-- `is_user_accessible` of kernel/src/syscall.rs accepts exactly the non-empty ranges of user space.
use serix.Base.{ℕ, ◌+◌, ◌≤◌, ◌<◌, ◌≡◌, ◌↔◌, true, arith}
use serix.Syscall.{user_space_end, u64_max, is_user_accessible}

-- For 64-bit arguments: a range passes exactly when it is not empty, does not start at the null
-- address, and ends, computed without overflow, inside the lower half of the address space. In
-- particular no range of length 0 passes, and none that wraps round.
pub is_user_accessible_iff :
    (addr len : ℕ)
    → addr ≤ u64_max
    → len ≤ u64_max
    → (is_user_accessible addr len ≡ true)
      ↔ ((0 < addr) × (0 < len) × (addr + len ≤ user_space_end))
unfolding is_user_accessible
is_user_accessible_iff addr len ha hl = (λ h. ground arith, λ h. ground arith)
