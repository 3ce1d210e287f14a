-- ===== src/Virtqueue.antt =====
-- drivers/src/virtqueue.rs: the descriptor table with its free list, the available ring and the used
-- ring. The rings lie in memory that the device shares: it writes `used` and `used_idx`. Bit 0 of the
-- flags is VIRTQ_DESC_F_NEXT: `flags & 1` is the remainder by two, and setting and clearing the bit are
-- written with it.
pub mod Lists
pub mod Start
pub mod Push
pub mod Free
mod Tests
use serix.Base.{
  ℕ, zero, suc, ◌+◌, ◌-◌, ◌%◌, ◌^◌, Bool, true, false, ◌||◌, List, [], ◌∷◌, ◌++◌, Option, none,
  some, if◌then◌else◌, ◌==◌, ltb, length, get_or, set, replicate,
}

pub record VirtqDesc : Type 0 where
  pub addr : ℕ
  pub len : ℕ
  pub flags : ℕ
  pub next : ℕ

-- A buffer of a request: its physical address, its length and its flags.
pub record Buffer : Type 0 where
  pub addr : ℕ
  pub len : ℕ
  pub flags : ℕ

pub record Virtqueue : Type 0 where
  pub desc : List VirtqDesc
  pub ring : List ℕ
  pub avail_idx : ℕ
  pub used : List (ℕ × ℕ)
  pub used_idx : ℕ
  pub queue_size : ℕ
  pub free_head : ℕ
  pub num_free : ℕ
  pub last_used_idx : ℕ

abbrev pub blank : VirtqDesc
blank = record { addr = 0; len = 0; flags = 0; next = 0 }

abbrev pub at : List VirtqDesc → ℕ → VirtqDesc
at d i = get_or d i blank

-- The descriptors from number `i` on, `n` of them, of a queue of the size given.
unfoldable pub init_descs : ℕ → ℕ → ℕ → List VirtqDesc
init_descs size i zero = []
init_descs size i (suc n) =
    record { addr = 0; len = 0; flags = 0; next = if ltb (i + 1) size then i + 1 else 0 }
    ∷ init_descs size (i + 1) n

-- `allocate`, once its three pages are there.
unfoldable pub allocate : ℕ → Virtqueue
unfolding init_descs
allocate size = record {
  desc = init_descs size 0 size;
  ring = replicate size 0;
  avail_idx = 0;
  used = replicate size (0, 0);
  used_idx = 0;
  queue_size = size;
  free_head = 0;
  num_free = size;
  last_used_idx = 0;
}

-- `flags & !NEXT` for the last buffer, `flags | NEXT` for the others.
abbrev pub chain_flags : List Buffer → ℕ → ℕ
chain_flags [] flags = flags - flags % 2
chain_flags (b ∷ bs) flags = flags - flags % 2 + 1

-- One round of the loop of `push_chain`: the descriptor `idx` is filled; the buffers that follow decide
-- on its NEXT flag.
abbrev pub filled : Buffer → List Buffer → ℕ → List VirtqDesc → VirtqDesc
filled b bs idx d = record {
  addr = b.addr;
  len = b.len;
  flags = chain_flags bs b.flags;
  next = (at d idx).next;
}

abbrev pub take_desc : Buffer → List Buffer → ℕ → Virtqueue → Virtqueue
take_desc b bs idx q = record q {
  desc = set q.desc idx (filled b bs idx q.desc);
  num_free = q.num_free - 1;
}

unfoldable pub fill : List Buffer → ℕ → Virtqueue → Virtqueue
fill [] idx q = q
fill (b ∷ []) idx q = record (take_desc b [] idx q) { free_head = (at q.desc idx).next }
fill (b ∷ c ∷ bs) idx q = fill (c ∷ bs) (at q.desc idx).next (take_desc b (c ∷ bs) idx q)

abbrev pub offer : ℕ → Virtqueue → Virtqueue
offer head q = record q {
  ring = set q.ring (q.avail_idx % q.queue_size) head;
  avail_idx = (q.avail_idx + 1) % 2 ^ 16;
}

unfoldable pub is_empty : List Buffer → Bool
is_empty [] = true
is_empty (b ∷ bs) = false

unfoldable pub push_chain : List Buffer → Virtqueue → Virtqueue × Option ℕ
unfolding fill is_empty
push_chain bs q =
    if is_empty bs || ltb q.num_free (length bs % 2 ^ 16)
    then (q, none)
    else (offer q.free_head (fill bs q.free_head q), some q.free_head)

unfoldable pub pop_used : Virtqueue → Virtqueue × Option (ℕ × ℕ)
pop_used q = if q.last_used_idx == q.used_idx then (q, none) else (
  record q { last_used_idx = (q.last_used_idx + 1) % 2 ^ 16 },
  some (get_or q.used (q.last_used_idx % q.queue_size) (0, 0)),
)

-- One round of the loop of `free_chain`.
abbrev pub give_back : ℕ → Virtqueue → Virtqueue
give_back idx q = record q {
  desc = set q.desc idx (record (at q.desc idx) { next = q.free_head; flags = 0 });
  free_head = idx;
  num_free = (q.num_free + 1) % 2 ^ 16;
}

-- The loop of `free_chain` on fuel; none is that it goes on. One round for each descriptor of the chain
-- is enough (`Free.free_chain-Free`).
unfoldable pub free_chain : ℕ → ℕ → Virtqueue → Option Virtqueue
free_chain zero head q = none
free_chain (suc fuel) head q =
    let rest = free_chain fuel (at q.desc head).next (give_back head q) in
    if (at q.desc head).flags % 2 == 0 then some (give_back head q) else rest
