-- ===== src/Thread/Unblock.antt =====
-- `threadBlock` and `threadUnblock` of kernel/thread.c, with `schedule`: a thread that waits leaves
-- the ready list, and the one that wakes it puts it in front.
use holo_os.Base.{
  ℕ, ◌<◌, ◌≡◌, ◌≢◌, refl, sym, ap, subst, ◌∙◌, Bool, true, false, ◌||◌, List, [], ◌∷◌, length,
  arith,
}
use holo_os.Base.Run.{ok, panic, ◌>>=◌}
use holo_os.Interrupt.{intr_off, intr_get_status, intr_disable}
use holo_os.Interrupt.Flag.{set_status-disable, disable-off}
use holo_os.LinkedList.{tail, list_push}
use holo_os.LinkedList.Distinct.{All, Absent}
use holo_os.LinkedList.Sequence.{list_push_lem}
use holo_os.LinkedList.Walk.{list_exist_lem}
use holo_os.Memory.Pool.{null}
use holo_os.Thread.{
  TaskStatus, task_running, task_ready, task_blocked, task_waiting, task_hanging, task_died,
  is_status, thread_set_status, general_tag, Kernel, with_status, thread_block, thread_unblock,
}
use holo_os.Thread.Ready.{
  tags, length-tags, IsReady, IsSched, All-keep, spin_wait-free, Absent-tags, Absent-member,
  Absent-ready,
}
use holo_os.Thread.Switch.{switched, schedule-leaves}

-- The same state with interrupts turned off.
abbrev pub masked : Kernel → Kernel
masked k = record k { eflags = (intr_disable k.eflags).1 }

-- Whether `threadUnblock` wakes a thread of this status.
abbrev pub wakes : TaskStatus → Bool
wakes s = is_status s task_blocked || is_status s task_waiting || is_status s task_hanging

-- What `threadUnblock` leaves where it wakes a thread.
abbrev pub woken : Kernel → ℕ → Kernel
woken k t = record (with_status k t task_ready) {
  links = list_push k.links k.ready_list (general_tag t);
  ready_lock = false;
}

-- A thread outside the ready list whose tag is apart from the list's ends.
pub record IsAside (k : Kernel) (t : ℕ) : Type 0 where
  pub not_null : t ≢ null
  pub tag : Absent (general_tag t) (k.ready_list ∷ tail k.ready_list ∷ [])
  pub apart : k.current ≢ t
  pub stopped : wakes (k.tasks.status t) ≡ true

wakes-not_ready :
    (s : TaskStatus) → wakes s ≡ true → (s ≢ task_ready) × (is_status s task_ready ≡ false)
unfolding is_status
wakes-not_ready task_running h = absurd (cc)
wakes-not_ready task_ready h = absurd (cc)
wakes-not_ready task_blocked h = ((λ e. cc), refl)
wakes-not_ready task_waiting h = ((λ e. cc), refl)
wakes-not_ready task_hanging h = ((λ e. cc), refl)
wakes-not_ready task_died h = absurd (cc)

-- A status with which `threadBlock` takes a thread off the processor until it is woken.
pub data IsStop (s : TaskStatus) : Type 0 where
  blocks : s ≡ task_blocked → IsStop s
  hangs : s ≡ task_hanging → IsStop s

stop-cases :
    (s : TaskStatus)
    → IsStop s
    → ((is_status s task_blocked || is_status s task_running || is_status s task_hanging) ≡ true)
      × (is_status s task_running ≡ false)
      × (wakes s ≡ true)
unfolding is_status
stop-cases s (blocks e) = rw e (refl, refl, refl)
stop-cases s (hangs e) = rw e (refl, refl, refl)

module _ (k : Kernel) (fuel : ℕ) where
  aside-Absent :
      (t : ℕ) (ts : List ℕ) → wakes (k.tasks.status t) ≡ true → All (IsReady k) ts → Absent t ts
  aside-Absent t [] w h = tt
  aside-Absent t (x ∷ xs) w ((e, _), h) = (
    λ same. (wakes-not_ready (k.tasks.status t) w).0 (ap k.tasks.status same ∙ e),
    aside-Absent t xs w h,
  )

  pub thread_unblock_lem :
      (ts : List ℕ) (t : ℕ)
      → IsSched (masked k) ts
      → length ts < fuel
      → IsAside k t
      → (thread_unblock fuel k t ≡ ok (woken k t)) × IsSched (masked (woken k t)) (t ∷ ts)
  unfolding thread_unblock
  thread_unblock_lem ts t v lt a =
      let out = aside-Absent t ts a.stopped v.waiting in
      let free = spin_wait-free fuel {b = k.ready_lock} (omega arith) v.ready_free in
      let few : length (tags ts) < fuel = rw (length-tags ts) lt in
      let walk = list_exist_lem (tags ts) v.ready fuel few (general_tag t) in
      let none_there = Absent-member (general_tag t) (tags ts) (Absent-tags t ts out) in
      let other = (wakes-not_ready (k.tasks.status t) a.stopped).1 in
      (
        rw (a.stopped, free, other, walk, none_there, (set_status-disable k.eflags).2) refl,
        record {
          ready =
              (list_push_lem (tags ts) (general_tag t) v.ready
                (omega arith, (a.tag.0, (a.tag.1.0, Absent-tags t ts out)))).0;
          waiting = (
            (ground arith, a.not_null),
            All-keep (IsReady k) (IsReady (masked (woken k t))) t ts
                (λ x ne r. (ground (arith, r.0), r.1)) out v.waiting,
          );
          not_null = v.not_null;
          cur_tag = v.cur_tag;
          cur_out = let old = v.cur_out in let ne = a.apart in λ e. ground arith;
          ready_free = refl;
          tag_free = v.tag_free;
          off = v.off;
        },
      )

  -- A thread that is neither blocked, nor waiting, nor hanging is not woken: the assertion fails.
  pub thread_unblock-panic :
      (t : ℕ) → wakes (k.tasks.status t) ≡ false → thread_unblock fuel k t ≡ panic
  unfolding thread_unblock
  thread_unblock-panic t w = rw w refl

  abbrev blocked : TaskStatus → Kernel
  blocked stat = with_status (masked k) k.current stat

  -- `threadBlock` takes the current thread off the processor for the first of the ready list, and
  -- leaves it out of that list.
  pub thread_block_lem :
      (stat : TaskStatus) (t : ℕ) (rest : List ℕ)
      → IsSched (masked k) (t ∷ rest)
      → length (t ∷ rest) < fuel
      → IsStop stat
      → (thread_block fuel k stat ≡ ok (intr_get_status k.eflags, switched (blocked stat) t))
        × IsSched (switched (blocked stat) t) rest
        × IsAside (switched (blocked stat) t) k.current
  unfolding thread_block thread_set_status
  thread_block_lem stat t rest v lt how =
      let (may, other, stop) = stop-cases stat how in
      let out = Absent-ready (masked k) k.current (t ∷ rest) v.cur_out v.waiting in
      let mine : (blocked stat).tasks.status k.current ≡ stat = ground arith in
      let other' : is_status ((blocked stat).tasks.status k.current) task_running ≡ false =
        rw mine other in
      let stopped : wakes ((blocked stat).tasks.status k.current) ≡ true = rw mine stop in
      let v' : IsSched (blocked stat) (t ∷ rest) = record {
        ready = v.ready;
        waiting =
            All-keep (IsReady (masked k)) (IsReady (blocked stat)) k.current (t ∷ rest)
              (λ x ne r. (ground (arith, r.0), r.1)) out v.waiting;
        not_null = v.not_null;
        cur_tag = v.cur_tag;
        cur_out = (wakes-not_ready ((blocked stat).tasks.status k.current) stopped).0;
        ready_free = v.ready_free;
        tag_free = v.tag_free;
        off = v.off;
      } in
      let (go, left) = schedule-leaves (blocked stat) fuel t rest v' (omega arith) other' in
      (
        rw (may, go, (set_status-disable k.eflags).1) refl,
        left,
        record {
          not_null = v.not_null;
          tag = v.cur_tag;
          apart = λ e. out.0 (sym e);
          stopped =
              let ne = out.0 in
              let still : (switched (blocked stat) t).tasks.status k.current ≡ stat =
                ground arith in
              rw still stop;
        },
      )

pub masked-off : (k : Kernel) → intr_get_status k.eflags ≡ intr_off → masked k ≡ k
masked-off k off = ap (λ r. record k { eflags = r.1 }) (disable-off k.eflags off)

-- A thread that blocks and is woken by the next one that runs is first in the ready list again, and
-- interrupts are as they were where the other was taken off the processor.
pub unblock-block :
    (k : Kernel) (fuel : ℕ) (stat : TaskStatus) (t : ℕ) (rest : List ℕ)
    → IsSched (masked k) (t ∷ rest)
    → length (t ∷ rest) < fuel
    → IsStop stat
    → (k2 : Kernel) × ((thread_block fuel k stat >>= λ r. thread_unblock fuel r.1 k.current)
        ≡ ok k2)
      × (k2.current ≡ t)
      × IsSched k2 (k.current ∷ rest)
unblock-block k fuel stat t rest v lt how =
    let (go, left, aside) = thread_block_lem k fuel stat t rest v lt how in
    let k1 = switched (blocked k fuel stat) t in
    let same = masked-off k1 left.off in
    let (woke, sched) =
      thread_unblock_lem k1 fuel rest k.current (subst (λ s. IsSched s rest) (sym same) left)
        (omega arith) aside in
    (
      woken k1 k.current,
      rw go woke,
      refl,
      subst (λ s. IsSched s (k.current ∷ rest)) (masked-off (woken k1 k.current) left.off) sched,
    )
