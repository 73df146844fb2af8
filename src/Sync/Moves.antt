-- ===== src/Sync/Moves.antt =====
-- Which threads a step of kernel/sync.c moves: its own only.
use holo_os.Base.{
  ℕ, ◌≡◌, ◌≢◌, subst, Bool-cases, inl, inr, ◌==◌, Option, none, some, List, [], ◌∷◌, arith,
}
use holo_os.Sync.{
  Lock, Place, outside, inside, try_first, take_spin, append, try_again, withdraw, leave_spin,
  block, drop_spin, asleep, check_holder, release_spin, take_waiter, end_empty, end_spin, wake,
  null, set, move, spin, unspin, swap_holder, pop_waiter, step_at,
}

-- The step, if there is one, leaves the other threads at their places.
abbrev pub Apart : Lock → ℕ → Option Lock → Type 0
Apart s t none = Unit {0}
Apart s t (some l) = (u : ℕ) → u ≢ t → l.place u ≡ s.place u

set-other : (s : Lock) (t : ℕ) (p : Place) (u : ℕ) → u ≢ t → set s.place t p u ≡ s.place u
set-other s t p u ne = ground arith

spin-Apart : (s : Lock) (t : ℕ) (p : Place) → Apart s t (spin s t p)
unfolding spin
spin-Apart s t p = elim (Bool-cases s.occupied) [
  | inl taken ↦ rw taken tt
  | inr free ↦ rw free (set-other s t p)
]

swap_holder-Apart : (s : Lock) (t : ℕ) (p q : Place) → Apart s t (some (swap_holder s t p q))
unfolding swap_holder
swap_holder-Apart s t p q = elim (Bool-cases (s.holder == null)) [
  | inl free ↦ rw free (set-other s t p)
  | inr held ↦ rw held (set-other s t q)
]

pop_waiter-Apart : (s : Lock) (t : ℕ) (us : List ℕ) → Apart s t (some (pop_waiter s t us))
unfolding pop_waiter
pop_waiter-Apart s t [] = set-other s t end_empty
pop_waiter-Apart s t (u ∷ us) = set-other s t (end_spin u)

pub step_at-Apart : (s : Lock) (t : ℕ) (p : Place) → Apart s t (step_at s t p)
unfolding step_at unspin
step_at-Apart s t outside = set-other s t try_first
step_at-Apart s t try_first = swap_holder-Apart s t inside take_spin
step_at-Apart s t take_spin = spin-Apart s t append
step_at-Apart s t append = set-other s t try_again
step_at-Apart s t try_again = swap_holder-Apart s t withdraw block
step_at-Apart s t withdraw = set-other s t leave_spin
step_at-Apart s t leave_spin = set-other s t inside
step_at-Apart s t block = set-other s t drop_spin
step_at-Apart s t drop_spin = set-other s t asleep
step_at-Apart s t asleep = elim (Bool-cases (s.blocked t)) [
  | inl sleeps ↦ rw sleeps tt
  | inr woken ↦ rw woken (set-other s t try_first)
]
step_at-Apart s t inside = set-other s t check_holder
step_at-Apart s t check_holder = elim (Bool-cases (s.holder == t)) [
  | inl mine ↦ rw mine (set-other s t release_spin)
  | inr other ↦ rw other tt
]
step_at-Apart s t release_spin = spin-Apart s t take_waiter
step_at-Apart s t take_waiter = pop_waiter-Apart s t s.waiters
step_at-Apart s t end_empty = set-other s t outside
step_at-Apart s t (end_spin v) = set-other s t (wake v)
step_at-Apart s t (wake v) = elim (Bool-cases (s.blocked v)) [
  | inl sleeps ↦ rw sleeps (set-other s t outside)
  | inr ready ↦ rw ready (set-other s t outside)
]

-- The places behind a call of `lockAcquire` and of `lockRelease`.
pub step_at-outside :
    (s : Lock) (t : ℕ) {l : Lock} → step_at s t outside ≡ some l → l.place t ≡ try_first
unfolding step_at
step_at-outside s t {l} e =
    let same : move s t try_first ≡ l = cc in
    subst (λ (x : Lock). x.place t ≡ try_first) same (ground arith)

pub step_at-inside :
    (s : Lock) (t : ℕ) {l : Lock} → step_at s t inside ≡ some l → l.place t ≡ check_holder
unfolding step_at
step_at-inside s t {l} e =
    let same : move s t check_holder ≡ l = cc in
    subst (λ (x : Lock). x.place t ≡ check_holder) same (ground arith)
