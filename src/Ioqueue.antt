-- ===== src/Ioqueue.antt =====
-- device/ioqueue.c: the ring of 64 characters behind the keyboard. The queue's lock makes each call
-- one step; a call that finds its loop's test true waits, and leaves the queue as it is.
pub mod Ring
pub mod Schedule
pub mod Waiting
mod Tests
use holo_os.Base.{ℕ, ◌+◌, ◌%◌, Bool, ◌==◌, if◌then◌else◌, Option, none, some, List, [], ◌∷◌}
use holo_os.Base.Memory.{Mem, update}

-- `BUFSIZE`, include/device/ioqueue.h
abbrev pub bufsize : ℕ
bufsize = 64

pub record Ioqueue : Type 0 where
  pub buf : Mem
  pub head : ℕ
  pub tail : ℕ

unfoldable pub ioqueue_init : Ioqueue → Ioqueue
ioqueue_init ioq = record ioq { head = 0; tail = 0 }

abbrev pub next_pos : ℕ → ℕ
next_pos pos = (pos + 1) % bufsize

unfoldable pub ioqueue_full : Ioqueue → Bool
ioqueue_full ioq = next_pos ioq.tail == ioq.head

unfoldable pub ioqueue_empty : Ioqueue → Bool
ioqueue_empty ioq = ioq.tail == ioq.head

-- The character and the queue that the call leaves; `none` where it waits for `condNotEmpty`.
pub ioqueue_getchar : Ioqueue → Option (ℕ × Ioqueue)
ioqueue_getchar ioq =
    if ioqueue_empty ioq
    then none
    else some (ioq.buf ioq.head, record ioq { head = next_pos ioq.head })

-- `none` where the call waits for `condNotFull`.
pub ioqueue_putchar : Ioqueue → ℕ → Option Ioqueue
ioqueue_putchar ioq ch =
    if ioqueue_full ioq
    then none
    else some (record ioq { buf = update ioq.buf ioq.tail ch; tail = next_pos ioq.tail })

-- The calls of the threads that share the queue, in the order in which they hold its lock; a call
-- that waits tries again later.
pub data Call : Type 0 where
  get : Call
  put : ℕ → Call

pub data Outcome : Type 0 where
  waits stored : Outcome
  got : ℕ → Outcome

pub serve : Ioqueue → Call → Outcome × Ioqueue
serve ioq get = elim (ioqueue_getchar ioq) [ none ↦ (waits, ioq) | some r ↦ (got r.0, r.1) ]
serve ioq (put ch) = elim (ioqueue_putchar ioq ch) [
  | none ↦ (waits, ioq)
  | some ioq' ↦ (stored, ioq')
]

pub serve_all : Ioqueue → List Call → List Outcome × Ioqueue
serve_all ioq [] = ([], ioq)
serve_all ioq (call ∷ calls) =
    let (out, ioq1) = serve ioq call in
    let (outs, ioq') = serve_all ioq1 calls in (out ∷ outs, ioq')
