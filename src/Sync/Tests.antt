-- ===== src/Sync/Tests.antt =====
-- Two threads at a lock of kernel/sync.c, and the theorems there.
use holo_os.Base.{
  ℕ, ◌%◌, ◌^◌, ◌≤◌, length, ◌+◌, ◌≡◌, refl, ◌⊎◌, Option, none, some, List, [], ◌∷◌, arith,
}
use holo_os.Sync.Semaphore.{Event, down, again, up, happen_all}
use holo_os.Sync.Semaphore.Wakeups.{fresh, happen_all_lem}
use holo_os.Sync.{Lock, lock_init, step_at, Reachable, start, next}
use holo_os.Sync.Exclusion.{mutual_exclusion}

abbrev or_stay : Lock → Option Lock → Lock
or_stay s none = s
or_stay s (some s') = s'

-- The steps of the threads of a list, in its order; each number is one less than its thread.
abbrev run : Lock → List ℕ → Lock
run s [] = s
run s (t ∷ ts) = run (or_stay s (step_at s (1 + t) (s.place (1 + t)))) ts

or_stay-Reachable :
    (s : Lock) (t : ℕ) (r : Option Lock)
    → Reachable s
    → step_at s (1 + t) (s.place (1 + t)) ≡ r
    → Reachable (or_stay s r)
or_stay-Reachable s t none h e = h
or_stay-Reachable s t (some s') h e = next h (1 + t) (omega arith) e

run-Reachable : (ts : List ℕ) (s : Lock) → Reachable s → Reachable (run s ts)
run-Reachable [] s h = h
run-Reachable (t ∷ ts) s h = run-Reachable ts _ (or_stay-Reachable s t _ h refl)

-- Thread 1 is in, and thread 2 waits.
abbrev both_call : List ℕ
both_call = 0 ∷ 0 ∷ 1 ∷ 1 ∷ 1 ∷ 1 ∷ 1 ∷ 1 ∷ 1 ∷ []

abbrev contended : Lock
contended = run lock_init both_call

contended-Reachable : Reachable contended
contended-Reachable = run-Reachable both_call lock_init start

mutual_exclusion_example : (◌≡◌ {A = ℕ} 1 1) × (contended.holder ≡ 1)
unfolding lock_init step_at
mutual_exclusion_example =
    mutual_exclusion 1 1 contended-Reachable (omega arith) (omega arith) refl refl

-- Two threads wait at a semaphore of value 0, two calls wake them, and the first goes on.
abbrev busy : List Event
busy = down 1 ∷ down 2 ∷ up ∷ up ∷ again 0 ∷ []

happen_all_lem_example :
    (((happen_all (fresh 0) busy).sem.value + (happen_all (fresh 0) busy).downs) % 2 ^ 32
      ≡ (0 + (happen_all (fresh 0) busy).ups) % 2 ^ 32)
    × (((happen_all (fresh 0) busy).sem.waiters ≡ [])
        ⊎ ((happen_all (fresh 0) busy).sem.value ≤ length (happen_all (fresh 0) busy).sem.woken))
happen_all_lem_example = happen_all_lem 0 busy
