-- ===== src/Thread/Turns.antt =====
-- device/timer.c with `schedule` of kernel/thread.c: threads that run take turns, and none of them
-- waits longer than the ticks of those before it. Interrupts come one after the other here, and
-- the threads between them do not call the scheduler.
use holo_os.Base.{
  ℕ, zero, suc, ◌+◌, ◌-◌, ◌%◌, ◌^◌, ◌<◌, ◌≡◌, ◌≢◌, refl, sym, ap, subst, ◌∙◌, true, false, ◌==◌,
  List, [], ◌∷◌, ◌++◌, length, length-++, arith,
}
use mathlib.Core.List.{append_assoc}
use holo_os.Base.Memory.{update, update_ne}
use holo_os.Base.Run.{Run, ok, panic, out_of_fuel, ◌>>=◌}
use holo_os.LinkedList.Distinct.{All, Absent, All-append, All-left}
use holo_os.Thread.{task_running, stack_magic_value, Kernel, intr_timer_handler}
use holo_os.Thread.Ready.{IsSched, All-map, cur-Absent, requeued}
use holo_os.Thread.Switch.{switched, schedule-running}

-- `n` timer interrupts.
pub interrupts : ℕ → ℕ → Kernel → Run Kernel
interrupts zero fuel k = ok k
interrupts (suc n) fuel k = intr_timer_handler fuel k >>= interrupts n fuel

-- The control block is whole, and its priority and its count of ticks are positive.
pub record IsHealthy (k : Kernel) (t : ℕ) : Type 0 where
  pub magic : k.tasks.stack_magic t ≡ stack_magic_value
  pub priority_pos : 0 < k.tasks.priority t
  pub priority_fits : k.tasks.priority t < 2 ^ 8
  pub ticks_pos : 0 < k.tasks.ticks t
  pub ticks_fit : k.tasks.ticks t < 2 ^ 8

-- The current thread runs, and `ts` wait in the ready list.
pub record IsRunning (k : Kernel) (ts : List ℕ) : Type 0 where
  pub sched : IsSched k ts
  pub run : k.tasks.status k.current ≡ task_running
  pub cur_healthy : IsHealthy k k.current
  pub healthy : All (IsHealthy k) ts

-- The ticks that the threads of a list have left.
abbrev pub ticks_of : Kernel → List ℕ → ℕ
ticks_of k [] = 0
ticks_of k (t ∷ ts) = k.tasks.ticks t + ticks_of k ts

-- The state behind a tick, before a thread without ticks is taken off the processor.
abbrev pub ticked : Kernel → Kernel
ticked k = record k {
  tasks = record k.tasks {
    elapsed_ticks =
        update k.tasks.elapsed_ticks k.current ((k.tasks.elapsed_ticks k.current + 1) % 2 ^ 32);
    ticks = update k.tasks.ticks k.current ((k.tasks.ticks k.current + 2 ^ 8 - 1) % 2 ^ 8);
  };
  ticks = (k.ticks + 1) % 2 ^ 32;
}

ticked-IsSched : (k : Kernel) (ts : List ℕ) → IsSched k ts → IsSched (ticked k) ts
ticked-IsSched k ts v = record {
  ready = v.ready;
  waiting = All-map (λ x r. r) ts v.waiting;
  not_null = v.not_null;
  cur_tag = v.cur_tag;
  cur_out = v.cur_out;
  ready_free = v.ready_free;
  tag_free = v.tag_free;
  off = v.off;
}

module _ (k : Kernel) (fuel : ℕ) (ts : List ℕ) (v : IsRunning k ts) where
  ticked-IsHealthy : 1 < k.tasks.ticks k.current → (x : ℕ) → IsHealthy k x → IsHealthy (ticked k) x
  ticked-IsHealthy more x h = record {
    magic = h.magic;
    priority_pos = h.priority_pos;
    priority_fits = h.priority_fits;
    ticks_pos =
        let p = h.ticks_pos in
        let q = h.ticks_fit in let f = v.cur_healthy.ticks_fit in ground arith;
    ticks_fit = let q = h.ticks_fit in let f = v.cur_healthy.ticks_fit in ground arith;
  }

  timer-goes_on :
      1 < k.tasks.ticks k.current
      → (intr_timer_handler fuel k ≡ ok (ticked k))
        × IsRunning (ticked k) ts
        × ((ticked k).tasks.ticks k.current + 1 ≡ k.tasks.ticks k.current)
  unfolding intr_timer_handler
  timer-goes_on more =
      let m = v.cur_healthy.magic in
      let f = v.cur_healthy.ticks_fit in
      let left : ((k.tasks.ticks k.current + 2 ^ 8 - 1) % 2 ^ 8 == 0) ≡ false = ground arith in
      (
        rw (m, left) refl,
        record {
          sched = ticked-IsSched k ts v.sched;
          run = v.run;
          cur_healthy = ticked-IsHealthy more k.current v.cur_healthy;
          healthy = All-map (ticked-IsHealthy more) ts v.healthy;
        },
        ground arith,
      )

  abbrev next_turn : ℕ → Kernel
  next_turn t = switched (requeued (ticked k) ts (ticked-IsSched k ts v.sched)) t

  next_turn-IsHealthy : (t x : ℕ) → IsHealthy k x → IsHealthy (next_turn t) x
  next_turn-IsHealthy t x h = record {
    magic = h.magic;
    priority_pos = h.priority_pos;
    priority_fits = h.priority_fits;
    ticks_pos = let p = h.ticks_pos in let q = v.cur_healthy.priority_pos in ground arith;
    ticks_fit = let p = h.ticks_fit in let q = v.cur_healthy.priority_fits in ground arith;
  }

  timer-turn :
      length ts < fuel
      → k.tasks.ticks k.current ≡ 1
      → (t : ℕ) (rest : List ℕ) → ts ++ k.current ∷ [] ≡ t ∷ rest
      → (intr_timer_handler fuel k ≡ ok (next_turn t)) × IsRunning (next_turn t) rest
  unfolding intr_timer_handler
  timer-turn lt one t rest e =
      let m = v.cur_healthy.magic in
      let left : ((k.tasks.ticks k.current + 2 ^ 8 - 1) % 2 ^ 8 == 0) ≡ true = ground arith in
      let (go, v') =
        schedule-running (ticked k) fuel ts (ticked-IsSched k ts v.sched) lt v.run t rest e in
      let all : All (IsHealthy (next_turn t)) (t ∷ rest) =
        subst (λ l. All (IsHealthy (next_turn t)) l) e
          (All-append (IsHealthy (next_turn t)) ts (k.current ∷ [])
            (All-map (next_turn-IsHealthy t) ts v.healthy)
            (next_turn-IsHealthy t k.current v.cur_healthy, tt)) in
      (
        rw (m, left) go,
        record { sched = v'; run = ground arith; cur_healthy = all.0; healthy = all.1 },
      )

bind-cong :
    (f g h : Kernel → Run Kernel) (r : Run Kernel)
    → ((k : Kernel) → f k ≡ (g k >>= h))
    → (r >>= f) ≡ (r >>= g >>= h)
bind-cong f g h (ok k) e = e k
bind-cong f g h panic e = refl
bind-cong f g h out_of_fuel e = refl

interrupts-+ :
    (m n fuel : ℕ) (k : Kernel)
    → interrupts (m + n) fuel k ≡ (interrupts m fuel k >>= interrupts n fuel)
unfolding interrupts
interrupts-+ zero n fuel k = ap (λ j. interrupts j fuel k) {y = n} (omega arith)
interrupts-+ (suc m) n fuel k =
    ap (λ j. interrupts j fuel k) {y = suc (m + n)} (omega arith)
    ∙ bind-cong (interrupts (m + n) fuel) (interrupts m fuel) (interrupts n fuel)
        (intr_timer_handler fuel k) (interrupts-+ m n fuel)

-- Where the next thread is, the current one keeps the processor for the ticks that it has left.
record Passed (k k' : Kernel) (t : ℕ) (ts : List ℕ) : Type 0 where
  next : k'.current ≡ t
  runs : IsRunning k' (ts ++ k.current ∷ [])
  kept : (x : ℕ) → k.current ≢ x → k'.tasks.ticks x ≡ k.tasks.ticks x

turn_passes :
    (n fuel : ℕ) (k : Kernel) (t : ℕ) (ts : List ℕ)
    → IsRunning k (t ∷ ts)
    → length (t ∷ ts) < fuel
    → k.tasks.ticks k.current ≡ suc n
    → (k' : Kernel) × (interrupts (suc n) fuel k ≡ ok k') × Passed k k' t ts
unfolding interrupts
turn_passes zero fuel k t ts v lt e =
    let (go, v') = timer-turn k fuel (t ∷ ts) v lt e t (ts ++ k.current ∷ []) refl in
    (
      next_turn k fuel (t ∷ ts) v t,
      rw go refl,
      record { next = refl; runs = v'; kept = λ x ne. ground arith },
    )
turn_passes (suc n) fuel k t ts v lt e =
    let (go, v', less) = timer-goes_on k fuel (t ∷ ts) v (omega arith) in
    let (k', run, p) = turn_passes n fuel (ticked k) t ts v' lt (omega arith) in
    (
      k',
      rw go run,
      record {
        next = p.next;
        runs = p.runs;
        kept = λ x ne. p.kept x ne ∙ update_ne k.tasks.ticks _ _ x ne;
      },
    )

one_turn :
    (fuel : ℕ) (k : Kernel) (t : ℕ) (ts : List ℕ)
    → IsRunning k (t ∷ ts)
    → length (t ∷ ts) < fuel
    → (k' : Kernel) × (interrupts (k.tasks.ticks k.current) fuel k ≡ ok k') × Passed k k' t ts
one_turn fuel k t ts v lt =
    let pos = v.cur_healthy.ticks_pos in
    let e : k.tasks.ticks k.current ≡ suc (k.tasks.ticks k.current - 1) = omega arith in
    let (k', run, p) = turn_passes (k.tasks.ticks k.current - 1) fuel k t ts v lt e in
    (k', ap (λ n. interrupts n fuel k) e ∙ run, p)

ticks_of-kept :
    (k k' : Kernel) (c : ℕ) (ts : List ℕ)
    → ((x : ℕ) → c ≢ x → k'.tasks.ticks x ≡ k.tasks.ticks x)
    → Absent c ts
    → ticks_of k' ts ≡ ticks_of k ts
ticks_of-kept k k' c [] kept out = refl
ticks_of-kept k k' c (t ∷ ts) kept (ne, out) =
    let e = kept t ne in let rest = ticks_of-kept k k' c ts kept out in omega arith

-- With `before` ahead of a thread in the ready list, that thread runs when the current one and those
-- ahead have used the ticks that they have left, and they wait behind it then.
pub wait_lem :
    (before : List ℕ) (t : ℕ) (after : List ℕ) (fuel : ℕ) (k : Kernel)
    → IsRunning k (before ++ t ∷ after)
    → length (before ++ t ∷ after) < fuel
    → (k' : Kernel) × (interrupts (ticks_of k (k.current ∷ before)) fuel k ≡ ok k')
      × (k'.current ≡ t)
      × IsRunning k' (after ++ k.current ∷ before)
wait_lem [] t after fuel k v lt =
    let (k', run, p) = one_turn fuel k t after v lt in
    (k', ap (λ n. interrupts n fuel k) (omega arith) ∙ run, p.next, p.runs)
wait_lem (b ∷ bs) t after fuel k v lt =
    let (k1, run, p) = one_turn fuel k b (bs ++ t ∷ after) v lt in
    let e = append_assoc bs (t ∷ after) (k.current ∷ []) in
    let fewer : length (bs ++ t ∷ (after ++ k.current ∷ [])) < fuel =
      let l = ap length e in let l' = length-++ (bs ++ t ∷ after) (k.current ∷ []) in omega arith in
    let (k', run', next, runs) =
      wait_lem bs t (after ++ k.current ∷ []) fuel k1 (subst (λ l. IsRunning k1 l) e p.runs)
        fewer in
    let out = cur-Absent k (b ∷ bs ++ t ∷ after) v.sched in
    let same =
      ticks_of-kept k k1 k.current (b ∷ bs) p.kept
        (All-left (λ x. k.current ≢ x) (b ∷ bs) (t ∷ after) out) in
    let left : ticks_of k1 (k1.current ∷ bs) ≡ ticks_of k (b ∷ bs) = rw p.next same in
    (
      k',
      interrupts-+ (k.tasks.ticks k.current) (ticks_of k (b ∷ bs)) fuel k ∙ rw (run, sym left) run',
      next,
      subst (λ l. IsRunning k' l)
          (ap (λ c. (after ++ k.current ∷ []) ++ c ∷ bs) p.next
            ∙ append_assoc after (k.current ∷ []) (b ∷ bs))
          runs,
    )
