-- ===== src/Fd.antt =====
-- kernel/src/fd.rs: the table of file descriptors. An `Arc<OpenFile>` is a handle, an index into the
-- files made so far, so descriptors that share a file share its cursor. `I` is the type of
-- `Arc<dyn INode>`.
pub mod NextFd
pub mod Sharing
pub mod Clone
pub mod Cursors
pub mod Collision
mod Tests
use serix.Base.{
  ℕ, zero, suc, ◌+◌, Bool, true, false, not, List, [], ◌∷◌, ◌++◌, Option, none, some, if◌then◌else◌,
  ◌==◌, length, get_elem?, set,
}
use serix.Base.Map
use serix.Base.Map.{pair_keyed}

module _ (I : Type 0) where
  pub record OpenFile : Type 0 where
    pub inode : I
    pub offset : ℕ

  -- FD_TABLE, the files behind the handles, and NEXT_FD.
  pub record FdTable : Type 0 where
    pub table : List ((ℕ × ℕ) × ℕ)
    pub files : List OpenFile
    pub next : ℕ

abbrev pub contains_key : ℕ × ℕ → List ((ℕ × ℕ) × ℕ) → Bool
contains_key k m = elim (Map.get k m) [ none ↦ false | some h ↦ true ]

-- The loop of `next_fd` on fuel.
unfoldable pub next_fd_from : ℕ → ℕ → ℕ → List ((ℕ × ℕ) × ℕ) → ℕ
next_fd_from zero task fd m = fd
next_fd_from (suc n) task fd m =
    let rest = next_fd_from n task (fd + 1) m in if contains_key (task, fd) m then rest else fd

-- `next_fd`; one round for each entry of the table is enough (`NextFd.next_fd_least`).
unfoldable pub next_fd : ℕ → List ((ℕ × ℕ) × ℕ) → ℕ
unfolding next_fd_from
next_fd task m = next_fd_from (length m) task 3 m

module _ {I : Type 0} where
  unfoldable pub empty : FdTable I
  empty = record { table = []; files = []; next = 3 }

  -- `Arc::new` and `insert`
  abbrev pub insert_file : ℕ → ℕ → OpenFile I → FdTable I → FdTable I
  insert_file task fd f s = record s {
    table = Map.insert (task, fd) (length s.files) s.table;
    files = s.files ++ f ∷ [];
  }

  -- `open`; the argument is the answer of `vfs::lookup_path`.
  unfoldable pub open_path : ℕ → Option I → FdTable I → FdTable I × Option ℕ
  open_path task none s = (s, none)
  open_path task (some i) s = (
    record (insert_file task s.next (record { inode = i; offset = 0 }) s) { next = s.next + 1 },
    some s.next,
  )

  unfoldable pub close : ℕ → ℕ → FdTable I → FdTable I × Bool
  close task fd s =
      (record s { table = Map.remove (task, fd) s.table }, contains_key (task, fd) s.table)

  -- `get`: the handle.
  unfoldable pub get : ℕ → ℕ → FdTable I → Option ℕ
  get task fd s = Map.get (task, fd) s.table

  -- The file behind a descriptor.
  unfoldable pub file : ℕ → ℕ → FdTable I → Option (OpenFile I)
  unfolding get
  file task fd s = elim (get task fd s) [ none ↦ none | some h ↦ get_elem? s.files h ]

  abbrev pub set_offset : ℕ → ℕ → FdTable I → FdTable I
  set_offset h off s = elim (get_elem? s.files h) [
    | none ↦ s
    | some f ↦ record s { files = set s.files h (record f { offset = off }) }
  ]

  unfoldable pub seek : ℕ → ℕ → ℕ → FdTable I → FdTable I × Bool
  unfolding get
  seek task fd off s = elim (get task fd s) [
    | none ↦ (s, false)
    | some h ↦ (set_offset h off s, true)
  ]

  unfoldable pub insert_inode : ℕ → I → FdTable I → FdTable I × ℕ
  unfolding next_fd
  insert_inode task i s =
      let fd = next_fd task s.table in
      (insert_file task fd (record { inode = i; offset = 0 }) s, fd)

  unfoldable pub dup : ℕ → ℕ → FdTable I → FdTable I × Option ℕ
  unfolding next_fd
  dup task old_fd s = elim (Map.get (task, old_fd) s.table) [
    | none ↦ (s, none)
    | some h ↦
        let new_fd = next_fd task s.table in
        (record s { table = Map.insert (task, new_fd) h s.table }, some new_fd)
  ]

  unfoldable pub dup2 : ℕ → ℕ → ℕ → FdTable I → FdTable I × Option ℕ
  dup2 task old_fd new_fd s =
      if old_fd == new_fd
      then (s, if contains_key (task, old_fd) s.table then some new_fd else none)
      else elim (Map.get (task, old_fd) s.table) [
        | none ↦ (s, none)
        | some h ↦ (
          record s { table = Map.insert (task, new_fd) h (Map.remove (task, new_fd) s.table) },
          some new_fd,
        )
      ]

  -- The first pass of `clone_for_task`: the descriptors of `src` with a copy of the file of each.
  unfoldable pub collect : ℕ → List (OpenFile I) → List ((ℕ × ℕ) × ℕ) → List (ℕ × OpenFile I)
  collect src files [] = []
  collect src files (((task, fd), h) ∷ m) =
      if task == src
      then elim (get_elem? files h) [
        | none ↦ collect src files m
        | some f ↦ (fd, f) ∷ collect src files m
      ]
      else collect src files m

  unfoldable pub insert_all : ℕ → List (ℕ × OpenFile I) → FdTable I → FdTable I
  insert_all dst [] s = s
  insert_all dst ((fd, f) ∷ es) s = insert_all dst es (insert_file dst fd f s)

  unfoldable pub clone_for_task : ℕ → ℕ → FdTable I → FdTable I
  unfolding collect insert_all
  clone_for_task src dst s = insert_all dst (collect src s.files s.table) s

  unfoldable pub cleanup : ℕ → FdTable I → FdTable I
  cleanup task s = record s { table = Map.retain (λ k. not (k.0 == task)) s.table }

  -- `init_stdio`, with the three console nodes
  unfoldable pub init_stdio : ℕ → I → I → I → FdTable I → FdTable I
  init_stdio task stdin stdout stderr s =
      insert_file task 2 (record { inode = stderr; offset = 0 })
        (insert_file task 1 (record { inode = stdout; offset = 0 })
          (insert_file task 0 (record { inode = stdin; offset = 0 }) s))

  -- kernel/src/pipe.rs, `create_pipe`, with the two ends of the new pipe
  unfoldable pub create_pipe : ℕ → I → I → FdTable I → FdTable I × ℕ × ℕ
  unfolding insert_inode
  create_pipe task read_end write_end s =
      let (s', read_fd) = insert_inode task read_end s in
      let (s'', write_fd) = insert_inode task write_end s' in (s'', read_fd, write_fd)
