-- ===== src/Memory/Tests.antt =====
-- The allocators on short runs.
use serix.Base.{ℕ, ◌≡◌, Bool, true, List, [], ◌∷◌, none, some, arith}
use serix.Memory.Frames.{StaticBootFrameAllocator, outcomes, served, remaining, outcomes-served}
use serix.Memory.Slub.Calls.{Call, allocate, release, start, run}
use serix.Memory.Stacks.{Rising, stacks, new, stacks_disjoint}
use serix.Memory.Slub.Apart.{Apart, blocks_disjoint}

-- Two frames in four slots.
abbrev slots : StaticBootFrameAllocator
slots = record { next = 0; limit = 4; frames = none ∷ some 7 ∷ none ∷ some 9 ∷ [] }

outcomes-served_example : outcomes 3 slots ≡ served 3 (remaining slots)
outcomes-served_example = outcomes-served 3 slots (omega arith)

-- A page allocator with that many frames.
abbrev map_new : ℕ → ℕ → Bool × ℕ
map_new va n = (true, n)

abbrev calls : List Call
calls = allocate 5000 ∷ allocate 4096 ∷ release 1 ∷ allocate 8192 ∷ allocate 10 ∷ []

blocks_disjoint_example : Apart (run map_new (start (some 0)) calls).live
blocks_disjoint_example = blocks_disjoint map_new (some 0) calls (omega arith)

-- Two stacks, and two requests that are refused.
stacks_disjoint_example : Rising (stacks map_new (1048576 ∷ 100 ∷ 4096 ∷ 0 ∷ []) new 0 [])
stacks_disjoint_example =
    stacks_disjoint map_new (1048576 ∷ 100 ∷ 4096 ∷ 0 ∷ []) 0
      (omega arith, (omega arith, (omega arith, (omega arith, tt))))
