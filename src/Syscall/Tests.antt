-- ===== src/Syscall/Tests.antt =====
-- The address check on a concrete range.
use serix.Base.{◌+◌, ◌≤◌, ◌<◌, ◌≡◌, ◌↔◌, true, arith}
use serix.Syscall.{user_space_end, is_user_accessible}
use serix.Syscall.Access.{is_user_accessible_iff}

is_user_accessible_iff_example :
    (is_user_accessible 4096 16 ≡ true) ↔ ((0 < 4096) × (0 < 16) × (4096 + 16 ≤ user_space_end))
is_user_accessible_iff_example = is_user_accessible_iff 4096 16 (omega arith) (omega arith)
