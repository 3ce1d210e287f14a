-- ===== src/Lib.antt =====
-- A verification of serix, a small kernel in Rust.
--
-- The kernel is a workspace of crates. Tasks are scheduled round robin (task), make system calls
-- (kernel/src/syscall.rs), exchange messages through ports (ipc) and bytes through pipes
-- (kernel/src/pipe.rs), name files by descriptors (kernel/src/fd.rs) in a tree of mounts (vfs), and run
-- in memory that the boot frame allocator and the SLUB allocator hand out (memory). SYS_EXIT and
-- SYS_WAIT join the scheduler and the descriptor table; a blocked reader of a pipe and a blocked
-- receiver of a port are woken through the scheduler.
--
--   Base       the shared helpers: Boolean tests on native numbers, lists with native indices,
--              predicates on lists, and finite maps for BTreeMap
--   Circular   the copy loops of a ring buffer, used by Pipe and Keyboard
--   Pipe       kernel/src/pipe.rs: PipeInner and its methods; `read_round` is one round of the loop of
--              PipeReadEnd::read, `read` the loop over an explicit schedule of what happens while the
--              reader is off the CPU, in which it goes on only when it was woken
--   Sched      task/src/scheduler.rs (RunQueue and the functions on it) and, of task/src/lib.rs,
--              schedule (`preempt`) and block_current_and_switch
--   Fd         kernel/src/fd.rs, with create_pipe of kernel/src/pipe.rs
--   Process    SYS_EXIT and SYS_WAIT of kernel/src/syscall.rs
--   Syscall    the address check and the error numbers of kernel/src/syscall.rs
--   Ipc        ipc/src/lib.rs; Ipc.Syscalls is SYS_SEND and SYS_RECV
--   Vfs        vfs/src/lib.rs: Path (normalize_mount_path and the string functions used), Mounts (the
--              mount table), RamFile, RamDir
--   Memory     Frames is StaticBootFrameAllocator of memory/src/heap.rs, Slub is memory/src/slub.rs and
--              Stacks is memory/src/kstack.rs
--   Loader     loader/src/elf.rs and loader/src/lib.rs, over the bytes of a file
--   Keyboard   keyboard/src/lib.rs, on the same copy loops as Pipe
--   Virtqueue  drivers/src/virtqueue.rs: the descriptor table and its free list
--   Capability capability/src/store.rs
--   Bitmap     the bitmap helpers of fs/src/ext2/bitmap_alloc.rs
--   Block      fs/src/lib.rs: a block device as a store of sectors, the registry of drivers (Registry)
--              and a device as a file of bytes (RawNode)
--   Ext2       fs/src/ext2: Superblock and Groups (the metadata on disk), Alloc (over Bitmap), Inode and
--              BlockMap, Dir and DirEdit (directory blocks), FileNode and DirNode (what the VFS calls)
--              and Driver; DirBlock relates a directory block to the list of its entries, Blocks,
--              Records, Counts and Marks are about the device under the metadata
--   Fat32      fs/src/fat32/mod.rs: Bpb (the parameters), Fat (the table and its chains), File (file_read
--              and file_write), Names, Dir (the scan of a directory), Create (new entries), Node (what
--              the VFS calls) and Driver; Entries, Alloc, Chain and Slot are about the table and the
--              slots on the device
--
-- State is passed explicitly. Shared objects (tasks, open files, ports, nodes of a directory) stand in a
-- store, and what the source holds by Arc is an index into it, so that sharing is visible. Locks are left
-- out: an operation that holds its lock throughout is one step. A round that blocks is one step with the
-- switch to another task, though the source releases its lock before. Blocking operations are modelled by
-- rounds: a round answers or puts the task to sleep, and the runs of several callers are sequences of such
-- steps. Numbers are natural numbers; where the source computes modulo a power of two that can be
-- reached, the remainder is written out, and the theorems carry the bounds under which no wrap-around
-- occurs.
--
-- Loops are recursive functions. The search of `next_fd` runs on fuel, one round for each entry of the
-- table, which suffices because each round that goes on passes another entry. The loop of
-- `allocate_frame` has one round for each slot below the limit. The loop of `free_chain` has one round for
-- each descriptor of the chain. The walk over a directory block runs on its length, which suffices because
-- an entry has at least eight bytes; the loops of reads and writes run on the number of bytes that are
-- left, because each round transfers one at least. The loops of FAT32 over a chain of clusters and over the
-- slots that unlink marks have no bound in the source and need not end on a damaged volume: they take
-- fuel, and answer none when it does not suffice; for a chain the number of its clusters suffices.
--
-- Parameters stand for what other code provides: the nodes behind descriptors and mounts and their
-- lookup, the page allocator and page tables under the SLUB and stack allocators, the addresses that
-- VirtAddr::new of the x86_64 crate accepts, and what lies in memory behind an ELF file.
--
-- Where the source panics on an index or a sum out of range, the model says so (none for RamFile::write and
-- a result of its own for the ELF loader) or gives a default: a group that the ext2 descriptor table does
-- not have is a blank descriptor.
--
-- Not modelled: the CPU context and the assembly of the context switch, page tables, interrupt
-- controllers, the registers of devices, the frame buffer and the shell. Of a block device only what
-- its callers see is modelled, a store of sectors of which some may fail. Of the exit of a task the closing
-- of its descriptors is modelled, but not what the Drop of a last reference does then.
pub mod Base
pub mod Bitmap
pub mod Block
pub mod Capability
pub mod Circular
pub mod Ext2
pub mod Fat32
pub mod Fd
pub mod Ipc
pub mod Keyboard
pub mod Loader
pub mod Memory
pub mod Pipe
pub mod Process
pub mod Sched
pub mod Syscall
pub mod Vfs
pub mod Virtqueue
