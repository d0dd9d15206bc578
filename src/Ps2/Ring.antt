-- ===== src/Ps2/Ring.antt =====
-- drivers/ps2/ps2.c: the rings that keep the bytes of the mouse and of the keyboard apart.
pub mod Queue
use entropy_os.Prelude.{
  ℕ, ◌+◌, ◌-◌, ◌%◌, Bool, Option, none, some, List, get_or, set, replicate, ◌==◌, if◌then◌else◌,
}

-- `PS2_BUF_SIZE`
abbrev pub ring_size : ℕ
ring_size = 64

-- a buffer with its head and tail
pub record Ring : Type 0 where
  pub buf : List ℕ
  pub head : ℕ
  pub tail : ℕ

abbrev pub empty_ring : Ring
empty_ring = record { buf = replicate ring_size 0; head = 0; tail = 0 }

-- `ring_push`, which drops the byte when the ring is full
unfoldable pub ring_push : ℕ → Ring → Ring
ring_push byte r =
    let next = (r.head + 1) % ring_size in
    if next == r.tail then r else record r { buf = set r.buf r.head byte; head = next }

-- `ring_pop`; `none` is the result -1.
unfoldable pub ring_pop : Ring → Option (ℕ × Ring)
ring_pop r =
    if r.tail == r.head
    then none
    else some (get_or r.buf r.tail 0, record r { tail = (r.tail + 1) % ring_size })

-- `n` bytes that were popped are put back.
unfoldable pub put_back : ℕ → Ring → Ring
put_back n r = record r { tail = (r.tail + ring_size - n) % ring_size }
