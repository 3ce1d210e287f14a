-- ===== src/Keyboard.antt =====
-- keyboard/src/lib.rs: the ring buffer of keys and the translation of scancodes.
pub mod Refine
mod Tests
use serix.Base.{
  ℕ, ◌+◌, ◌%◌, bit_and, Bool, true, false, not, List, [], ◌∷◌, Option, none, some, if◌then◌else◌,
  ◌==◌, get_elem?, get_or, set, replicate,
}

-- SCANDCODE_TO_ASCII
abbrev pub scancode_to_ascii : List ℕ
scancode_to_ascii =
    0
    ∷ 27
    ∷ 49
    ∷ 50
    ∷ 51
    ∷ 52
    ∷ 53
    ∷ 54
    ∷ 55
    ∷ 56
    ∷ 57
    ∷ 48
    ∷ 45
    ∷ 61
    ∷ 8
    ∷ 9
    ∷ 113
    ∷ 119
    ∷ 101
    ∷ 114
    ∷ 116
    ∷ 121
    ∷ 117
    ∷ 105
    ∷ 111
    ∷ 112
    ∷ 91
    ∷ 93
    ∷ 10
    ∷ 0
    ∷ 97
    ∷ 115
    ∷ 100
    ∷ 102
    ∷ 103
    ∷ 104
    ∷ 106
    ∷ 107
    ∷ 108
    ∷ 59
    ∷ 39
    ∷ 96
    ∷ 0
    ∷ 92
    ∷ 122
    ∷ 120
    ∷ 99
    ∷ 118
    ∷ 98
    ∷ 110
    ∷ 109
    ∷ 44
    ∷ 46
    ∷ 47
    ∷ 0
    ∷ 42
    ∷ 0
    ∷ 32
    ∷ replicate 70 0

-- BUF_SIZE
abbrev pub buf_size : ℕ
buf_size = 128

pub record RingBuffer : Type 0 where
  pub bytes : List ℕ
  pub head : ℕ
  pub tail : ℕ

unfoldable pub new : RingBuffer
new = record { bytes = replicate buf_size 0; head = 0; tail = 0 }

unfoldable pub push : ℕ → RingBuffer → RingBuffer
push val r =
    let next = (r.head + 1) % buf_size in
    if not (next == r.tail)
    then record { bytes = set r.bytes r.head val; head = next; tail = r.tail }
    else r

unfoldable pub pop : RingBuffer → RingBuffer × Option ℕ
pop r = if r.head == r.tail then (r, none) else (
  record { bytes = r.bytes; head = r.head; tail = (r.tail + 1) % buf_size },
  some (get_or r.bytes r.tail 0),
)

unfoldable pub handle_scancode : ℕ → RingBuffer → RingBuffer
unfolding push
handle_scancode scancode r =
    if not (bit_and scancode 128 == 0) then r else elim (get_elem? scancode_to_ascii scancode) [
      | none ↦ r
      | some ascii ↦ if not (ascii == 0) then push ascii r else r
    ]

unfoldable pub pop_key : RingBuffer → RingBuffer × Option ℕ
unfolding pop
pop_key r = pop r
