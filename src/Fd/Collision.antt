-- ===== src/Fd/Collision.antt =====
-- `open` of kernel/src/fd.rs takes its number from the global counter and does not look whether the
-- task has it open; `insert_inode` and `dup` take the lowest free number and do not move the counter.
use serix.Base.{ℕ, ◌≡◌, some, arith}
use serix.Base.Map
use serix.Base.Map.{pair_keyed, get-insert}
use serix.Fd.{empty, get, file, open_path, create_pipe}

module _ {I : Type 0} where
  -- A task that makes a pipe before any file was opened has its read end under 3; the first `open`
  -- of the system that it then makes returns 3 again, so that the read end can no longer be named.
  pub open_replaces_pipe :
      (task : ℕ) (read_end write_end i : I)
      → let (s, read_fd, write_fd) = create_pipe task read_end write_end empty in
        let (s', opened) = open_path task (some i) s in
        (file task read_fd s ≡ some (record { inode = read_end; offset = 0 }))
        × (opened ≡ some read_fd)
        × (file task read_fd s' ≡ some (record { inode = i; offset = 0 }))
  unfolding create_pipe empty open_path file get Map.insert Map.get
  open_replaces_pipe task read_end write_end i = ground arith
