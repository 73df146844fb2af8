-- ===== src/Thread/Switch.antt =====
-- `schedule` of kernel/thread.c: which thread runs next, and what waits behind it.
use holo_os.Base.{
  ℕ, ◌+◌, ◌%◌, ◌^◌, ◌<◌, ◌≡◌, ◌≢◌, refl, sym, ◌⊎◌, inl, inr, true, false, not, ◌==◌, if◌then◌else◌,
  List, [], ◌∷◌, ◌++◌, length, arith,
}
use holo_os.Base.Run.{Run, ok, panic}
use holo_os.LinkedList.{list_pop}
use holo_os.LinkedList.Distinct.{All}
use holo_os.LinkedList.Segment.{IsList}
use holo_os.LinkedList.Sequence.{list_pop_lem, list_empty-nil, list_empty-cons}
use holo_os.Interrupt.{intr_off, intr_get_status}
use holo_os.Memory.Pool.{null, pg_size}
use holo_os.Memory.Paging.{v2p}
use holo_os.Thread.{
  TaskStatus, task_running, task_ready, task_blocked, task_waiting, task_hanging, task_died,
  is_status, is_off, general_tag, task_of, Kernel, set, process_activate, page_dir_activate,
  dispatch, schedule,
}
use holo_os.Thread.Ready.{
  tags, IsReady, IsSched, spin_wait-free, Absent-of_tags, All-keep, requeued, requeue_lem,
}

-- The state behind a switch to `t`.
abbrev pub switched : Kernel → ℕ → Kernel
switched k t = record k {
  links = (list_pop k.links k.ready_list).1;
  ready_lock = false;
  tag_lock = false;
  thread_tag = general_tag t;
  tasks = record k.tasks { status = set k.tasks.status t task_running };
  cr3 = if k.tasks.page_dir t == null then 0x100000 else v2p k.store.words (k.tasks.page_dir t);
  esp0 = if k.tasks.page_dir t == null then k.esp0 else (t + pg_size) % 2 ^ 32;
  current = t;
}

not-null : (t : ℕ) → t ≢ null → not (t == null) ≡ true
not-null t ne = ground arith

task_of-general_tag : (t : ℕ) → task_of (general_tag t) ≡ t
task_of-general_tag t = omega arith

module _ (k : Kernel) (fuel : ℕ) (enough : 0 < fuel) (ready : k.ready_lock ≡ false)
    (tag : k.tag_lock ≡ false) where
  pub dispatch_lem :
      (t : ℕ) (rest : List ℕ)
      → IsList k.links k.ready_list (tags (t ∷ rest))
      → t ≢ null
      → (dispatch fuel k ≡ ok (switched k t)) × IsList (switched k t).links k.ready_list (tags rest)
  unfolding dispatch process_activate page_dir_activate
  dispatch_lem t rest is ne =
      let free = spin_wait-free fuel {b = k.ready_lock} enough ready in
      let free' = spin_wait-free fuel {b = k.tag_lock} enough tag in
      let some = list_empty-cons (general_tag t) (tags rest) is in
      let (value, left, _) = list_pop_lem (tags (t ∷ rest)) is in
      (rw (free, some, free', value, task_of-general_tag t, not-null t ne) refl, left)

  pub dispatch-empty : IsList k.links k.ready_list [] → dispatch fuel k ≡ panic
  unfolding dispatch
  dispatch-empty is =
      let free = spin_wait-free fuel {b = k.ready_lock} enough ready in
      rw (free, list_empty-nil is) refl

switched-IsSched :
    (k : Kernel) (t : ℕ) (rest : List ℕ)
    → IsList k.links k.ready_list (tags (t ∷ rest))
    → IsList (switched k t).links k.ready_list (tags rest)
    → All (IsReady k) (t ∷ rest)
    → intr_get_status k.eflags ≡ intr_off
    → IsSched (switched k t) rest
switched-IsSched k t rest is left ((st, ne), all) off =
    let apart = is.apart in
    record {
      ready = left;
      waiting =
          All-keep (IsReady k) (IsReady (switched k t)) t rest (λ x d r. (ground (arith, r.0), r.1))
            (Absent-of_tags t rest apart.1.1.1.0) all;
      not_null = ne;
      cur_tag = ((λ e. apart.1.0.1.0 (sym e)), ((λ e. apart.1.1.0.0 (sym e)), tt));
      cur_out = λ e. ground arith;
      ready_free = refl;
      tag_free = refl;
      off = off;
    }

-- What `schedule` does with the current thread and the threads `ts` of the ready list: a thread
-- that runs goes behind them with a full count of ticks, one that does not is left out; the first
-- of the list runs next, and the others stay in their order. If nothing is left the kernel panics.
pub data Scheduled (k : Kernel) (ts : List ℕ) (r : Run Kernel) : Type 0 where
  turn :
      (v : IsSched k ts) (t : ℕ) (rest : List ℕ)
      → k.tasks.status k.current ≡ task_running
      → ts ++ k.current ∷ [] ≡ t ∷ rest
      → r ≡ ok (switched (requeued k ts v) t)
      → IsSched (switched (requeued k ts v) t) rest
      → Scheduled k ts r
  leave :
      (t : ℕ) (rest : List ℕ)
      → k.tasks.status k.current ≢ task_running
      → ts ≡ t ∷ rest
      → r ≡ ok (switched k t)
      → IsSched (switched k t) rest
      → Scheduled k ts r
  idle : k.tasks.status k.current ≢ task_running → ts ≡ [] → r ≡ panic → Scheduled k ts r

running-is_status :
    (s : TaskStatus)
    → (s ≡ task_running) ⊎ ((s ≢ task_running) × (is_status s task_running ≡ false))
unfolding is_status
running-is_status task_running = inl refl
running-is_status task_ready = inr ((λ e. cc), refl)
running-is_status task_blocked = inr ((λ e. cc), refl)
running-is_status task_waiting = inr ((λ e. cc), refl)
running-is_status task_hanging = inr ((λ e. cc), refl)
running-is_status task_died = inr ((λ e. cc), refl)

module _ (k : Kernel) (fuel : ℕ) where
  pub schedule-running :
      (ts : List ℕ) (v : IsSched k ts)
      → length ts < fuel
      → k.tasks.status k.current ≡ task_running
      → (t : ℕ) (rest : List ℕ) → ts ++ k.current ∷ [] ≡ t ∷ rest
      → (schedule fuel k ≡ ok (switched (requeued k ts v) t))
        × IsSched (switched (requeued k ts v) t) rest
  unfolding schedule is_off is_status
  schedule-running ts v lt run t rest e =
      let (go, is, all) = requeue_lem k ts v fuel lt in
      let is' : IsList (requeued k ts v).links k.ready_list (tags (t ∷ rest)) = rw e at is in
      let all' : All (IsReady (requeued k ts v)) (t ∷ rest) = rw e at all in
      let (next, left) =
        dispatch_lem (requeued k ts v) fuel (omega arith) refl v.tag_free t rest is' all'.0.1 in
      (rw (v.off, run, go) next, switched-IsSched (requeued k ts v) t rest is' left all' v.off)

  pub schedule-leaves :
      (t : ℕ) (rest : List ℕ)
      → IsSched k (t ∷ rest)
      → 0 < fuel
      → is_status (k.tasks.status k.current) task_running ≡ false
      → (schedule fuel k ≡ ok (switched k t)) × IsSched (switched k t) rest
  unfolding schedule is_off
  schedule-leaves t rest v lt other =
      let (next, left) =
        dispatch_lem k fuel lt v.ready_free v.tag_free t rest v.ready v.waiting.0.1 in
      (rw (v.off, other) next, switched-IsSched k t rest v.ready left v.waiting v.off)

  schedule-left :
      (ts : List ℕ)
      → IsSched k ts
      → length ts < fuel
      → k.tasks.status k.current ≢ task_running
      → is_status (k.tasks.status k.current) task_running ≡ false
      → Scheduled k ts (schedule fuel k)
  unfolding schedule is_off
  schedule-left [] v lt ne other =
      idle ne refl
        (rw (v.off, other) (dispatch-empty k fuel (omega arith) v.ready_free v.tag_free v.ready))
  schedule-left (t ∷ rest) v lt ne other =
      let (next, left) = schedule-leaves t rest v (omega arith) other in
      leave t rest ne refl next left

  first_turn : (ts : List ℕ) (c : ℕ) → (t : ℕ) × (rest : List ℕ) × (ts ++ c ∷ [] ≡ t ∷ rest)
  first_turn [] c = (c, [], refl)
  first_turn (t ∷ ts) c = (t, ts ++ c ∷ [], refl)

  -- Every call of `schedule` on a sound ready list, with more rounds than it has threads, does
  -- that.
  pub schedule_lem :
      (ts : List ℕ) → IsSched k ts → length ts < fuel → Scheduled k ts (schedule fuel k)
  schedule_lem ts v lt = elim (running-is_status (k.tasks.status k.current)) [
    | inl run ↦
        let (t, rest, e) = first_turn ts k.current in
        let (go, v') = schedule-running ts v lt run t rest e in turn v t rest run e go v'
    | inr (ne, other) ↦ schedule-left ts v lt ne other
  ]
