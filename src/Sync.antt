-- ===== src/Sync.antt =====
-- kernel/sync.c: `lockAcquire` and `lockRelease`, in steps of the threads in any order. A step is one
-- access to what threads share, or what a thread does under the spin lock up to the next such access:
-- the assertion of `lockRelease` goes with the store behind it, and `threadUnblock` with the test
-- before it. The list of waiters is a sequence that a step changes as lib/list.c does while no other
-- list links its nodes; where `schedule` links them too, any other sequence may follow (`relinked`).
-- A thread calls `lockRelease` only while it has the lock.
pub mod Moves
pub mod Exclusion
pub mod Semaphore
mod Tests
use holo_os.Base.{
  ℕ, Bool, true, false, not, ◌==◌, ◌≡◌, ◌≢◌, if◌then◌else◌, Option, none, some, List, [], ◌∷◌, ◌++◌,
}

-- Where a thread stands: outside of both functions without the lock, or with it, or at the next
-- access of `lockAcquire` or `lockRelease`.
pub data Place : Type 0 where
  outside inside : Place
  try_first take_spin append try_again withdraw leave_spin block drop_spin asleep : Place
  check_holder release_spin take_waiter end_empty : Place
  end_spin wake : ℕ → Place

pub record Lock : Type 0 where
  -- a thread, or NULL
  pub holder : ℕ
  pub waiters : List ℕ
  -- `waitersLock.occupied`
  pub occupied : Bool
  pub place : ℕ → Place
  -- the thread's status is TASK_BLOCKED
  pub blocked : ℕ → Bool

abbrev pub null : ℕ
null = 0

abbrev pub set {ℓ} : {A : Type ℓ} → (ℕ → A) → ℕ → A → ℕ → A
set f t x u = if u == t then x else f u

abbrev pub move : Lock → ℕ → Place → Lock
move s t p = record s { place = set s.place t p }

pub remove : ℕ → List ℕ → List ℕ
remove t [] = []
remove t (u ∷ us) = let rest = remove t us in if u == t then us else u ∷ rest

-- `lockInit`, with every thread outside
unfoldable pub lock_init : Lock
lock_init = record {
  holder = null;
  waiters = [];
  occupied = false;
  place = λ t. outside;
  blocked = λ t. false;
}

-- `spinlockAcquire`: a round of its loop that fails changes nothing.
unfoldable pub spin : Lock → ℕ → Place → Option Lock
spin s t p = if s.occupied then none else some (move (record s { occupied = true }) t p)

unfoldable pub unspin : Lock → ℕ → Place → Lock
unspin s t p = move (record s { occupied = false }) t p

-- `compareAndSwap32(&lock->holder, NULL, threadCurrent())` and the places for the two answers
unfoldable pub swap_holder : Lock → ℕ → Place → Place → Lock
swap_holder s t swapped failed =
    if s.holder == null then move (record s { holder = t }) t swapped else move s t failed

unfoldable pub pop_waiter : Lock → ℕ → List ℕ → Lock
pop_waiter s t [] = move s t end_empty
pop_waiter s t (u ∷ us) = move (record s { waiters = us }) t (end_spin u)

-- The next step of thread `t` from its place; `none` where it cannot move: it is asleep, or in the
-- loop of the spin lock, or panics. From `outside` it calls `lockAcquire`, from `inside` it
-- calls `lockRelease`.
unfoldable pub step_at : Lock → ℕ → Place → Option Lock
unfolding spin unspin swap_holder pop_waiter remove
step_at s t outside = some (move s t try_first)
step_at s t try_first = some (swap_holder s t inside take_spin)
step_at s t take_spin = spin s t append
step_at s t append = some (move (record s { waiters = s.waiters ++ t ∷ [] }) t try_again)
step_at s t try_again = some (swap_holder s t withdraw block)
step_at s t withdraw = some (move (record s { waiters = remove t s.waiters }) t leave_spin)
step_at s t leave_spin = some (unspin s t inside)
step_at s t block = some (move (record s { blocked = set s.blocked t true }) t drop_spin)
step_at s t drop_spin = some (unspin s t asleep)
step_at s t asleep = if s.blocked t then none else some (move s t try_first)
step_at s t inside = some (move s t check_holder)
step_at s t check_holder =
    if s.holder == t then some (move (record s { holder = null }) t release_spin) else none
step_at s t release_spin = spin s t take_waiter
step_at s t take_waiter = some (pop_waiter s t s.waiters)
step_at s t end_empty = some (unspin s t outside)
step_at s t (end_spin u) = some (unspin s t (wake u))
step_at s t (wake u) =
    some (move (if s.blocked u then record s { blocked = set s.blocked u false } else s) t outside)

-- The list of waiters and the ready list link a thread by the same node, `generalTag`. A thread that
-- is preempted in `lockAcquire` between `listAppend` and `threadSetStatus` is put in the ready list
-- by `schedule`, which overwrites the links of the node: from then on the list of waiters may be any
-- sequence, and the scheduler may run any of its threads.
abbrev pub relink : Lock → List ℕ → (ℕ → Bool) → Lock
relink s ws bl = record s { waiters = ws; blocked = bl }

-- The states that the steps of threads and such a preemption lead to, in any order.
pub data Reachable : Lock → Type 0 where
  start : Reachable lock_init
  next :
      {s s' : Lock}
      → Reachable s
      → (t : ℕ) → t ≢ null
      → step_at s t (s.place t) ≡ some s'
      → Reachable s'
  relinked : {s : Lock} → Reachable s → (ws : List ℕ) (bl : ℕ → Bool) → Reachable (relink s ws bl)
