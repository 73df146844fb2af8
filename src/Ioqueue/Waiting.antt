-- ===== src/Ioqueue/Waiting.antt =====
-- device/ioqueue.c with the two conditions of the queue: who sleeps on them, and who was woken. What a
-- thread does under the queue's lock is one step, which ends where it gives the lock back or goes
-- to sleep; `woken` are the calls of the threads that `conditionSignal` has made ready and that have
-- not taken the lock again since.
pub mod Wakeups
use holo_os.Base.{ℕ, Bool, true, false, Option, none, some, List, [], ◌∷◌, ◌++◌, pick}
use holo_os.Ioqueue.{Ioqueue, ioqueue_init, ioqueue_getchar, ioqueue_putchar, Call, get, put}

pub record Shared : Type 0 where
  pub ring : Ioqueue
  -- the threads in `ioqueueGetchar`, and those in `ioqueuePutchar` with their characters
  pub not_empty : List ℕ
  pub not_full : List (ℕ × ℕ)
  pub woken : List (ℕ × Call)

unfoldable pub init_queue : Ioqueue → Shared
init_queue ioq = record { ring = ioqueue_init ioq; not_empty = []; not_full = []; woken = [] }

-- `conditionWait` on the two conditions, up to the switch to another thread.
pub wait_not_empty : Shared → ℕ → Shared
wait_not_empty s t = record s { not_empty = s.not_empty ++ t ∷ [] }

unfoldable pub wait_not_full : Shared → ℕ → ℕ → Shared
wait_not_full s t ch = record s { not_full = s.not_full ++ (t, ch) ∷ [] }

-- `conditionSignal` on the two conditions, by the threads that wait.
unfoldable pub wake_getter : Shared → List ℕ → Shared
wake_getter s [] = s
wake_getter s (t ∷ ts) = record s { not_empty = ts; woken = s.woken ++ (t, get) ∷ [] }

pub wake_putter : Shared → List (ℕ × ℕ) → Shared
wake_putter s [] = s
wake_putter s ((t, ch) ∷ ws) = record s { not_full = ws; woken = s.woken ++ (t, put ch) ∷ [] }

abbrev pub signal_not_empty : Shared → Shared
signal_not_empty s = wake_getter s s.not_empty

abbrev pub signal_not_full : Shared → Shared
signal_not_full s = wake_putter s s.not_full

-- One round of the loop of a call, and what is behind it; what the call returns where it is over.
pub getchar_round : Shared → ℕ → Option ℕ × Shared
getchar_round s t = elim (ioqueue_getchar s.ring) [
  | none ↦ (none, wait_not_empty s t)
  | some r ↦ (some r.0, signal_not_full (record s { ring = r.1 }))
]

unfoldable pub putchar_round : Shared → ℕ → ℕ → Bool × Shared
putchar_round s t ch = elim (ioqueue_putchar s.ring ch) [
  | none ↦ (false, wait_not_full s t ch)
  | some ring ↦ (true, signal_not_empty (record s { ring = ring }))
]

-- A thread makes a call, or one that was woken, by its place among those, takes the lock again and
-- goes on with the loop of its call.
pub data Event : Type 0 where
  call : ℕ → Call → Event
  again : ℕ → Event

-- With the queue, the characters of the calls that are over.
pub record History : Type 0 where
  pub queue : Shared
  pub put_chars : List ℕ
  pub got_chars : List ℕ

pub end_get : History → Option ℕ × Shared → History
end_get h (none, s) = record h { queue = s }
end_get h (some ch, s) = record h { queue = s; got_chars = h.got_chars ++ ch ∷ [] }

unfoldable pub end_put : History → ℕ → Bool × Shared → History
end_put h ch (false, s) = record h { queue = s }
end_put h ch (true, s) = record h { queue = s; put_chars = h.put_chars ++ ch ∷ [] }

unfoldable pub round : History → Shared → ℕ → Call → History
round h s t get = end_get h (getchar_round s t)
round h s t (put ch) = end_put h ch (putchar_round s t ch)

pub happen : History → Event → History
happen h (call t c) = round h h.queue t c
happen h (again n) = elim (pick n h.queue.woken) [
  | none ↦ h
  | some r ↦ round h (record h.queue { woken = r.1 }) r.0.0 r.0.1
]

pub happen_all : History → List Event → History
happen_all h [] = h
happen_all h (e ∷ es) = happen_all (happen h e) es
