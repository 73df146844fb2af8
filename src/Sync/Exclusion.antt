-- ===== src/Sync/Exclusion.antt =====
-- `lockAcquire` and `lockRelease` of kernel/sync.c let one thread in at a time.
use mathlib.Core.Bool.{true≢false}
use holo_os.Base.{
  ℕ, ◌≡◌, ◌≢◌, refl, sym, ◌∙◌, Bool-cases, ==→≡, inl, inr, subst, ==_refl, Bool, true, false, ◌==◌,
  if◌then◌else◌, Option, none, some, List, [], ◌∷◌, arith,
}
use holo_os.Sync.{
  Place, outside, inside, try_first, take_spin, append, try_again, withdraw, leave_spin, block,
  drop_spin, asleep, check_holder, release_spin, take_waiter, end_empty, end_spin, wake, Lock, null,
  set, move, lock_init, spin, unspin, swap_holder, pop_waiter, step_at, Reachable, start, next,
  relinked,
}

-- The places at which a thread has the lock.
abbrev pub has_lock : Place → Bool
has_lock inside = true
has_lock withdraw = true
has_lock leave_spin = true
has_lock check_holder = true
has_lock _ = false

-- The places at which a thread has the spin lock of the waiters.
abbrev pub has_spin : Place → Bool
has_spin append = true
has_spin try_again = true
has_spin withdraw = true
has_spin leave_spin = true
has_spin block = true
has_spin drop_spin = true
has_spin take_waiter = true
has_spin end_empty = true
has_spin (end_spin u) = true
has_spin _ = false

pub record IsLock (s : Lock) : Type 0 where
  pub owner : (u : ℕ) → u ≢ null → (s.holder == u) ≡ has_lock (s.place u)
  pub spinning : (u : ℕ) → has_spin (s.place u) ≡ true → s.occupied ≡ true
  pub one : (u v : ℕ) → has_spin (s.place u) ≡ true → has_spin (s.place v) ≡ true → u ≡ v

lock_init-IsLock : IsLock lock_init
unfolding lock_init
lock_init-IsLock = record {
  owner = λ u ne. ground arith;
  spinning = λ u h. ground arith;
  one = λ u v h h'. ground arith;
}

-- A step of `t` to a place `p`, which leaves the lock with `h` and the spin lock as `o`.
moved :
    (s : Lock) (t : ℕ) (p : Place) (h : ℕ) (o : Bool) (ws : List ℕ) (bl : ℕ → Bool)
    → IsLock s
    → (h == t) ≡ has_lock p
    → ((u : ℕ) → u ≢ null → u ≢ t → (h == u) ≡ (s.holder == u))
    → (has_spin p ≡ true → o ≡ true)
    → ((u : ℕ) → u ≢ t → has_spin (s.place u) ≡ true → (o ≡ true) × (has_spin p ≡ false))
    → IsLock
        (record { holder = h; waiters = ws; occupied = o; place = set s.place t p; blocked = bl })
moved s t p h o ws bl v mine others spin_mine spin_others = record {
  owner = λ u ne. elim (Bool-cases (u == t)) [
    | inl same ↦ let e = ==→≡ u t same in rw (same, e) mine
    | inr other ↦ let d : u ≢ t = ground arith in rw other (others u ne d ∙ v.owner u ne)
  ];
  spinning = λ u. elim (Bool-cases (u == t)) [
    | inl same ↦ rw same spin_mine
    | inr other ↦ let d : u ≢ t = ground arith in rw other (λ h. (spin_others u d h).0)
  ];
  one = λ u w. elim (Bool-cases (u == t)) [
    | inl same ↦ elim (Bool-cases (w == t)) [
      | inl same' ↦ λ a b. ==→≡ u t same ∙ sym (==→≡ w t same')
      | inr other' ↦
          let d : w ≢ t = ground arith in
          rw (same, other')
            (λ a b. let c = (spin_others w d b).1 in absurd (true≢false (sym a ∙ c)))
    ]
    | inr other ↦ elim (Bool-cases (w == t)) [
      | inl same' ↦
          let d : u ≢ t = ground arith in
          rw (other, same')
            (λ a b. let c = (spin_others u d a).1 in absurd (true≢false (sym b ∙ c)))
      | inr other' ↦ rw (other, other') (v.one u w)
    ]
  ];
}

-- What a step leads to is again such a state.
abbrev Preserved : Option Lock → Type 0
Preserved none = Unit {0}
Preserved (some s) = IsLock s

module _ (s : Lock) (t : ℕ) (v : IsLock s) (nt : t ≢ null) where
  alone : (u : ℕ) → u ≢ t → has_spin (s.place u) ≡ true → has_spin (s.place t) ≡ false
  alone u d h = elim (Bool-cases (has_spin (s.place t))) [
    | inl both ↦ absurd (d (v.one u t h both))
    | inr other ↦ other
  ]

  -- A step that changes neither the holder nor the spin lock, between places with the same rights.
  stays :
      (p p' : Place) (ws : List ℕ) (bl : ℕ → Bool)
      → s.place t ≡ p
      → has_lock p' ≡ has_lock p
      → has_spin p' ≡ has_spin p
      → IsLock (record s { waiters = ws; place = set s.place t p'; blocked = bl })
  stays p p' ws bl here e e' =
      let own : (s.holder == t) ≡ has_lock p = rw here at (v.owner t nt) in
      moved s t p' s.holder s.occupied ws bl v (own ∙ sym e) (λ u ne d. refl)
        (λ h. v.spinning t (rw here (sym e' ∙ h)))
        (λ u d h. (v.spinning u h, e' ∙ (rw here at (alone u d h))))

  -- The end of the time that `t` has the spin lock.
  leaves_spin :
      (p p' : Place)
      → s.place t ≡ p
      → has_lock p' ≡ has_lock p
      → has_spin p ≡ true
      → has_spin p' ≡ false
      → IsLock (unspin s t p')
  unfolding unspin
  leaves_spin p p' here e had now =
      let own : (s.holder == t) ≡ has_lock p = rw here at (v.owner t nt) in
      let mine : has_spin (s.place t) ≡ true = rw here had in
      moved s t p' s.holder false s.waiters s.blocked v (own ∙ sym e) (λ u ne d. refl)
        (λ h. absurd (true≢false (sym h ∙ now)))
        (λ u d h. absurd (true≢false (sym mine ∙ alone u d h)))

  takes_spin : (p p' : Place) → s.place t ≡ p → has_lock p' ≡ has_lock p → Preserved (spin s t p')
  unfolding spin
  takes_spin p p' here e = elim (Bool-cases s.occupied) [
    | inl busy ↦ rw busy tt
    | inr free ↦
        let own : (s.holder == t) ≡ has_lock p = rw here at (v.owner t nt) in
        rw free (
          moved s t p' s.holder true s.waiters s.blocked v (own ∙ sym e) (λ u ne d. refl)
            (λ h. refl) (λ u d h. absurd (true≢false (sym (v.spinning u h) ∙ free))))
  ]

  tries :
      (p p1 p2 : Place)
      → s.place t ≡ p
      → has_lock p ≡ false
      → has_lock p1 ≡ true
      → has_lock p2 ≡ false
      → has_spin p1 ≡ has_spin p
      → has_spin p2 ≡ has_spin p
      → IsLock (swap_holder s t p1 p2)
  unfolding swap_holder
  tries p p1 p2 here out in1 out2 e1 e2 = elim (Bool-cases (s.holder == null)) [
    | inl free ↦
        let free_now : s.holder ≡ null = ==→≡ s.holder null free in
        rw free (
          moved s t p1 t s.occupied s.waiters s.blocked v (==_refl t ∙ sym in1)
            (λ u ne d. ground arith) (λ h. v.spinning t (rw here (sym e1 ∙ h)))
            (λ u d h. (v.spinning u h, e1 ∙ (rw here at (alone u d h)))))
    | inr taken ↦ rw taken (stays p p2 _ _ here (out2 ∙ sym out) e2)
  ]

  pops : (ws : List ℕ) → s.place t ≡ take_waiter → IsLock (pop_waiter s t ws)
  unfolding pop_waiter
  pops [] here = stays take_waiter end_empty _ _ here refl refl
  pops (u ∷ us) here = stays take_waiter (end_spin u) _ _ here refl refl

  wakes :
      (u : ℕ) (b : Bool)
      → s.place t ≡ wake u
      → IsLock (move (if b then record s { blocked = set s.blocked u false } else s) t outside)
  wakes u true here = stays (wake u) outside _ _ here refl refl
  wakes u false here = stays (wake u) outside _ _ here refl refl

  gives_back : s.place t ≡ check_holder → Preserved (step_at s t check_holder)
  unfolding step_at
  gives_back here =
      let own : (s.holder == t) ≡ true = rw here at (v.owner t nt) in
      let holder : s.holder ≡ t = ==→≡ s.holder t own in
      rw own (
        moved s t release_spin null s.occupied s.waiters s.blocked v (ground arith)
          (λ u ne d. ground arith) (λ h. absurd (true≢false (sym h)))
          (λ u d h. (v.spinning u h, refl)))

  step_at-Preserved : (p : Place) → s.place t ≡ p → Preserved (step_at s t p)
  unfolding step_at
  step_at-Preserved outside here = stays outside try_first _ _ here refl refl
  step_at-Preserved inside here = stays inside check_holder _ _ here refl refl
  step_at-Preserved try_first here = tries try_first inside take_spin here refl refl refl refl refl
  step_at-Preserved take_spin here = takes_spin take_spin append here refl
  step_at-Preserved append here = stays append try_again _ _ here refl refl
  step_at-Preserved try_again here = tries try_again withdraw block here refl refl refl refl refl
  step_at-Preserved withdraw here = stays withdraw leave_spin _ _ here refl refl
  step_at-Preserved leave_spin here = leaves_spin leave_spin inside here refl refl refl
  step_at-Preserved block here = stays block drop_spin _ _ here refl refl
  step_at-Preserved drop_spin here = leaves_spin drop_spin asleep here refl refl refl
  step_at-Preserved asleep here = elim (Bool-cases (s.blocked t)) [
    | inl b ↦ rw b tt
    | inr b ↦ rw b (stays asleep try_first _ _ here refl refl)
  ]
  step_at-Preserved check_holder here = gives_back here
  step_at-Preserved release_spin here = takes_spin release_spin take_waiter here refl
  step_at-Preserved take_waiter here = pops s.waiters here
  step_at-Preserved end_empty here = leaves_spin end_empty outside here refl refl refl
  step_at-Preserved (end_spin u) here = leaves_spin (end_spin u) (wake u) here refl refl refl
  step_at-Preserved (wake u) here = wakes u (s.blocked u) here

pub Reachable-IsLock : {s : Lock} → Reachable s → IsLock s
Reachable-IsLock start = lock_init-IsLock
Reachable-IsLock (next {s} {s'} r t nt e) =
    subst Preserved e (step_at-Preserved s t (Reachable-IsLock r) nt (s.place t) refl)
Reachable-IsLock (relinked r ws bl) =
    let v = Reachable-IsLock r in record { owner = v.owner; spinning = v.spinning; one = v.one }

-- Whatever order the steps of the threads come in, and whatever a preemption makes of the list of
-- waiters, two threads that have the lock are one thread:
-- the one that the lock's holder names.
pub mutual_exclusion :
    {s : Lock} (t u : ℕ)
    → Reachable s
    → t ≢ null
    → u ≢ null
    → has_lock (s.place t) ≡ true
    → has_lock (s.place u) ≡ true
    → (t ≡ u) × (s.holder ≡ t)
mutual_exclusion {s} t u r nt nu ht hu =
    let v = Reachable-IsLock r in
    let a = ==→≡ s.holder t (v.owner t nt ∙ ht) in
    let b = ==→≡ s.holder u (v.owner u nu ∙ hu) in (sym a ∙ b, a)

-- The assertion of `lockRelease` never fails for a thread that took the lock.
pub release_never_panics :
    {s : Lock} (t : ℕ)
    → Reachable s
    → t ≢ null
    → s.place t ≡ check_holder
    → (s' : Lock) × (step_at s t check_holder ≡ some s') × (s'.holder ≡ null)
unfolding step_at
release_never_panics {s} t r nt here =
    let own : (s.holder == t) ≡ true = rw here at ((Reachable-IsLock r).owner t nt) in
    (move (record s { holder = null }) t release_spin, rw own refl, refl)
