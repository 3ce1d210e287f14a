-- ===== src/Memory.antt =====
-- The kernel's physical frames and large objects: memory/src/heap.rs and memory/src/slub.rs.
pub mod Frames
pub mod Slub
pub mod Stacks
mod Tests
