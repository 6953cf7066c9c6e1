-- ===== src/Ring.antt =====
-- kernel/ring.c, include/ring.h: the circular buffer between the keyboard interrupt (the only
-- producer) and the reader (the only consumer).
pub mod Queue
pub mod Spsc
mod Examples
use waltex.Base.{
  ℕ, ◌+◌, ◌%◌, ◌^◌, Bool, true, false, Option, none, some, List, ◌==◌, not, if◌then◌else◌, get_or,
  set,
}

-- RING_SIZE
abbrev pub ring_size : ℕ
ring_size = 128

pub record Ring : Type 0 where
  pub buf : List ℕ
  pub head : ℕ
  pub tail : ℕ

-- `(i + 1) % RING_SIZE` on a `uint32_t`
abbrev pub next_step : ℕ → ℕ
next_step i = (i + 1) % 2 ^ 32 % ring_size

-- The buffer's bytes are not touched.
unfoldable pub init : Ring → Ring
init r = record r { head = 0; tail = 0 }

-- The flag is the result: `true` for 1, `false` for 0 (full).
unfoldable pub push : Ring → ℕ → Bool × Ring
push r v =
    if next_step r.head == r.tail
    then (false, r)
    else (true, record r { buf = set r.buf r.head v; head = next_step r.head })

-- `none` is -1 (empty).
unfoldable pub pop : Ring → Option ℕ × Ring
pop r =
    if not (r.head == r.tail)
    then (some (get_or r.buf r.tail 0), record r { tail = next_step r.tail })
    else (none, r)

pub empty : Ring → Bool
empty r = r.head == r.tail
