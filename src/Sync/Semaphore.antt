-- ===== src/Sync/Semaphore.antt =====
-- kernel/sync.c: conditions and semaphores. What a thread does under a semaphore's lock is one step:
-- it gives the lock back where it ends or goes to sleep. A list of waiters is the sequence of its
-- threads; `woken` are the threads that `threadUnblock` has made ready and that have not run since.
-- The value is that of an `int` as 32 bits.
pub mod Wakeups
use holo_os.Base.{
  ℕ, zero, suc, ◌+◌, ◌%◌, ◌^◌, ◌-◌, Bool, true, false, ◌==◌, if◌then◌else◌, Option, none, some,
  List, [], ◌∷◌, ◌++◌, pick,
}

pub record Semaphore : Type 0 where
  pub value : ℕ
  pub waiters : List ℕ
  pub woken : List ℕ

pub semaphore_init : ℕ → Semaphore
semaphore_init value = record { value = value % 2 ^ 32; waiters = []; woken = [] }

-- `conditionWait` up to the switch to another thread.
pub condition_wait : Semaphore → ℕ → Semaphore
condition_wait s t = record s { waiters = s.waiters ++ t ∷ [] }

pub condition_signal : Semaphore → Semaphore
condition_signal s = elim s.waiters [
  | [] ↦ s
  | t ∷ ts ↦ record s { waiters = ts; woken = s.woken ++ t ∷ [] }
]

-- The loop, by the threads that wait.
pub signal_loop : List ℕ → Semaphore → Semaphore
signal_loop [] s = s
signal_loop (t ∷ ts) s = signal_loop ts (condition_signal s)

pub condition_signal_all : Semaphore → Semaphore
condition_signal_all s = signal_loop s.waiters s

-- One round of the loop of `semaphoreDown`, and what is behind it; whether the call is over.
pub semaphore_down : Semaphore → ℕ → Bool × Semaphore
semaphore_down s t =
    if s.value == 0
    then (false, condition_wait s t)
    else (true, record s { value = (s.value + 2 ^ 32 - 1) % 2 ^ 32 })

pub semaphore_up : Semaphore → Semaphore
semaphore_up s = condition_signal (record s { value = (s.value + 1) % 2 ^ 32 })

-- A thread calls `semaphoreDown` or `semaphoreUp`, or one that was woken, by its place among those,
-- takes the lock again and goes on with the loop of `semaphoreDown`.
pub data Event : Type 0 where
  down : ℕ → Event
  again : ℕ → Event
  up : Event

-- With the semaphore, how many calls of `semaphoreDown` and of `semaphoreUp` are over.
pub record History : Type 0 where
  pub sem : Semaphore
  pub downs : ℕ
  pub ups : ℕ

pub round : History → Semaphore → ℕ → History
round h s t =
    let (over, s') = semaphore_down s t in
    record h { sem = s'; downs = if over then h.downs + 1 else h.downs }

pub happen : History → Event → History
happen h (down t) = round h h.sem t
happen h (again n) = elim (pick n h.sem.woken) [
  | none ↦ h
  | some r ↦ round h (record h.sem { woken = r.1 }) r.0
]
happen h up = record h { sem = semaphore_up h.sem; ups = h.ups + 1 }

pub happen_all : History → List Event → History
happen_all h [] = h
happen_all h (e ∷ es) = happen_all (happen h e) es
