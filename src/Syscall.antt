-- ===== src/Syscall.antt =====
-- What the handlers of kernel/src/syscall.rs share: the error codes and the check of user pointers.
pub mod Access
mod Tests
use serix.Base.{ℕ, ◌+◌, ◌-◌, ◌^◌, min, Bool, not, ◌&&◌, leb, ltb, ◌==◌}

abbrev pub u64_max : ℕ
u64_max = 2 ^ 64 - 1

abbrev pub errno_ebadf : ℕ
errno_ebadf = u64_max - 8

abbrev pub errno_eagain : ℕ
errno_eagain = u64_max - 11

abbrev pub errno_enomem : ℕ
errno_enomem = u64_max - 11

abbrev pub errno_efault : ℕ
errno_efault = u64_max - 13

abbrev pub errno_enoent : ℕ
errno_enoent = u64_max - 2

abbrev pub errno_einval : ℕ
errno_einval = u64_max - 21

abbrev pub errno_epipe : ℕ
errno_epipe = u64_max - 31

abbrev pub user_space_start : ℕ
user_space_start = 0

abbrev pub user_space_end : ℕ
user_space_end = 0x0000_8000_0000_0000

-- `u64::saturating_add`
abbrev pub saturating_add : ℕ → ℕ → ℕ
saturating_add a b = min (a + b) u64_max

unfoldable pub is_user_accessible : ℕ → ℕ → Bool
is_user_accessible addr len =
    let end_addr = saturating_add addr len in
    leb user_space_start addr && leb end_addr user_space_end && ltb addr end_addr && not (addr == 0)
