-- ===== src/Fd/Tests.antt =====
-- Descriptor tables with the nodes 10, 11, 12 ….
use mathlib.Core.Option
use serix.Base.{
  false, ◌≤◌, leb, ltb, not, ◌&&◌, ℕ, ◌<◌, ◌≡◌, ap, [], ◌∷◌, some, arith, Distinct, length,
  if◌then◌else◌, ◌==◌,
}
use serix.Base.Map
use serix.Base.Map.{pair_keyed, keys}
use serix.Fd.{contains_key, OpenFile, FdTable, get, file, next_fd, clone_for_task}
use serix.Fd.NextFd.{next_fd_least}
use serix.Fd.Clone.{HandlesValid, clone_copies}

abbrev opened : ℕ → ℕ → OpenFile ℕ
opened i off = record { inode = i; offset = off }

-- Task 7 has 3 and 5 open.
abbrev shared : FdTable ℕ
shared = record {
  table = ((7, 3), 0) ∷ ((7, 5), 1) ∷ [];
  files = opened 10 20 ∷ opened 11 0 ∷ [];
  next = 6;
}

valid_handle : (task fd h : ℕ) → get task fd shared ≡ some h → h < length shared.files
unfolding get Map.get
valid_handle task fd h e = ground (arith, e)

shared-HandlesValid : HandlesValid shared
shared-HandlesValid = record { valid = valid_handle }

shared-Distinct : Distinct (keys shared.table)
shared-Distinct = (((λ e. omega (arith, ap (λ k. k.1) e)), tt), (tt, tt))

next_fd_least_example :
    (3 ≤ next_fd 7 shared.table)
    × (contains_key (7, next_fd 7 shared.table) shared.table ≡ false)
    × ((leb 3 5 && ltb 5 (next_fd 7 shared.table) && not (contains_key (7, 5) shared.table))
        ≡ false)
next_fd_least_example = next_fd_least 7 shared.table 5

clone_copies_example :
    file 8 5 (clone_for_task 7 8 shared)
    ≡ (if 8 == 8 then Option.or_else (file 7 5 shared) (file 8 5 shared) else file 8 5 shared)
clone_copies_example = clone_copies 7 8 8 5 shared shared-HandlesValid shared-Distinct
