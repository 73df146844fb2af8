-- ===== src/Thread/Start.antt =====
-- `threadStart` of kernel/thread.c: a new thread behind those that wait.
use holo_os.Base.{
  ℕ, ◌+◌, ◌%◌, ◌^◌, ◌<◌, ◌≡◌, ◌≢◌, refl, sym, subst, ◌∙◌, false, ◌==◌, List, [], ◌∷◌, ◌++◌, length,
  arith,
}
use holo_os.Base.Memory.{Mem, update}
use holo_os.Base.Run.{ok}
use holo_os.CString.Text.{strcpy}
use holo_os.LinkedList.{tail, list_append}
use holo_os.LinkedList.Distinct.{Absent, Distinct, All-append}
use holo_os.LinkedList.Segment.{IsList}
use holo_os.LinkedList.Two.{first_new, second_new, second_kept, both_appended}
use holo_os.LinkedList.Walk.{list_exist_lem}
use holo_os.Memory.Alloc.{get_kernel_pages}
use holo_os.Memory.Paging.{Store}
use holo_os.Memory.Pool.{Pools, null}
use holo_os.Thread.{
  task_ready, stack_magic_value, name_offset, general_tag, all_list_tag, Kernel, set, allocate_pid,
  ready_append, all_append, thread_init, thread_create, thread_start,
}
use holo_os.Interrupt.{intr_off, intr_get_status}
use holo_os.Thread.Ready.{
  IsReady, tags, tags-++, length-tags, Absent-member, Absent-of_tags, All-keep, spin_wait-free,
}
use holo_os.Thread.Turns.{IsRunning, IsHealthy}

-- The addresses of the two lists of threads with the tags of the new one, all of them different.
abbrev pub all_tags : Kernel → List ℕ → List ℕ → ℕ → List ℕ
all_tags k ts alls task =
    null ∷ (k.ready_list ∷ tail k.ready_list ∷ tags ts ++ general_tag task ∷ [])
    ++ (k.all_list ∷ tail k.all_list ∷ alls ++ all_list_tag task ∷ [])

-- What `threadStart` needs of the page `task` that it gets for the control block.
pub record IsNew (k : Kernel) (ts alls : List ℕ) (task : ℕ) : Type 0 where
  pub apart : Distinct (all_tags k ts alls task)
  pub alive : task ≢ null
  pub other : task ≢ k.current
  pub no_main : task ≢ k.main_thread

-- The state behind `threadInit` of the page `task`, with the memory `s` and the name copied.
abbrev pub initialised : Kernel → ℕ → Store → Mem → ℕ → Kernel
initialised k task s bytes priority = record k {
  store = record s { bytes = bytes };
  tasks = record k.tasks {
    status = set k.tasks.status task task_ready;
    pid = update k.tasks.pid task ((k.next_pid + 1) % 2 ^ 16);
    priority = update k.tasks.priority task (priority % 2 ^ 8);
    self_kstack = update k.tasks.self_kstack task ((task + 4096) % 2 ^ 32);
    ticks = update k.tasks.ticks task (priority % 2 ^ 8);
    elapsed_ticks = update k.tasks.elapsed_ticks task 0;
    page_dir = update k.tasks.page_dir task null;
    stack_magic = update k.tasks.stack_magic task stack_magic_value;
  };
  next_pid = (k.next_pid + 1) % 2 ^ 16;
  pid_lock = false;
}

-- A state in which only the control block of `task` has changed, and its tag stands last in the
-- ready list.
pub joined-IsRunning :
    (k : Kernel) (ts : List ℕ) (task : ℕ)
    → IsRunning k ts
    → task ≢ null
    → task ≢ k.current
    → Absent task ts
    → (k' : Kernel) → IsList k'.links k.ready_list (tags ts ++ general_tag task ∷ [])
    → k'.ready_list ≡ k.ready_list
    → k'.current ≡ k.current
    → ((t : ℕ)
        → task ≢ t
        → (k'.tasks.status t ≡ k.tasks.status t)
          × (k'.tasks.stack_magic t ≡ k.tasks.stack_magic t)
          × (k'.tasks.priority t ≡ k.tasks.priority t)
          × (k'.tasks.ticks t ≡ k.tasks.ticks t))
    → (k'.tasks.status task ≡ task_ready)
      × (k'.tasks.stack_magic task ≡ stack_magic_value)
      × (0 < k'.tasks.priority task)
      × (k'.tasks.priority task < 2 ^ 8)
      × (0 < k'.tasks.ticks task)
      × (k'.tasks.ticks task < 2 ^ 8)
    → k'.ready_lock ≡ false
    → k'.tag_lock ≡ false
    → intr_get_status k'.eflags ≡ intr_off
    → IsRunning k' (ts ++ task ∷ [])
joined-IsRunning k ts task v alive other out k' ready same_list same_cur kept set_up lock tag off =
    let w = v.sched in
    let healthy : (t : ℕ) → task ≢ t → IsHealthy k t → IsHealthy k' t = λ t ne h.
      let (a, b, c, d) = kept t ne in
      record {
        magic = b ∙ h.magic;
        priority_pos = rw c h.priority_pos;
        priority_fits = rw c h.priority_fits;
        ticks_pos = rw d h.ticks_pos;
        ticks_fit = rw d h.ticks_fit;
      } in
    let (a, b, c, d, e, f) = set_up in
    let cur_status = (kept k.current other).0 in
    record {
      sched = record {
        ready = rw (same_list, tags-++ ts (task ∷ [])) ready;
        waiting =
            All-append (IsReady k') ts (task ∷ [])
              (All-keep (IsReady k) (IsReady k') task ts (λ x ne r. ((kept x ne).0 ∙ r.0, r.1)) out
                w.waiting)
              ((a, alive), tt);
        not_null = rw same_cur w.not_null;
        cur_tag = rw (same_cur, same_list) w.cur_tag;
        cur_out = rw (same_cur, cur_status) w.cur_out;
        ready_free = lock;
        tag_free = tag;
        off = off;
      };
      run = rw (same_cur, cur_status) v.run;
      cur_healthy = subst (IsHealthy k') (sym same_cur) (healthy k.current other v.cur_healthy);
      healthy =
          All-append (IsHealthy k') ts (task ∷ [])
            (All-keep (IsHealthy k) (IsHealthy k') task ts healthy out v.healthy)
            (
              record {
                magic = b;
                priority_pos = c;
                priority_fits = d;
                ticks_pos = e;
                ticks_fit = f;
              },
              tt,
            );
    }

module _ (k : Kernel) (ts alls : List ℕ) (v : IsRunning k ts) (all : IsList k.links k.all_list alls)
    (all_free : k.all_lock ≡ false) (pid_free : k.pid_lock ≡ false) (task : ℕ)
    (new : IsNew k ts alls task) (pools : Pools) (s : Store)
    (page : get_kernel_pages k.store pools (k.tasks.user_vaddr k.current) 1 ≡ ok (task, s))
    (fuel name : ℕ) (out : ℕ × Mem)
    (copied : strcpy fuel s.bytes (task + name_offset) name ≡ ok out) (enough : length ts < fuel)
    (enough' : length alls < fuel) where
  abbrev started : ℕ → ℕ → ℕ → ℕ → Kernel
  started kernel_thread priority func arg =
      record (thread_create (initialised k task s out.1 priority) task kernel_thread func arg) {
        links =
            list_append (list_append k.links k.ready_list (general_tag task)) k.all_list
              (all_list_tag task);
        ready_lock = false;
        all_lock = false;
      }

  fresh : Absent (general_tag task) (null ∷ k.ready_list ∷ tail k.ready_list ∷ tags ts)
  fresh =
      first_new k.links k.ready_list k.all_list (general_tag task) (all_list_tag task) (tags ts)
        alls v.sched.ready all new.apart

  fresh_all : Absent (all_list_tag task) (null ∷ k.all_list ∷ tail k.all_list ∷ alls)
  fresh_all =
      second_new k.links k.ready_list k.all_list (general_tag task) (all_list_tag task) (tags ts)
        alls v.sched.ready all new.apart

  task-Absent : Absent task ts
  task-Absent = Absent-of_tags task ts fresh.1.1.1

  started-IsRunning :
      (kernel_thread priority func arg : ℕ)
      → 0 < priority
      → priority < 2 ^ 8
      → IsRunning (started kernel_thread priority func arg) (ts ++ task ∷ [])
  unfolding thread_create
  started-IsRunning kernel_thread priority func arg pos small =
      let both =
        both_appended k.links k.ready_list k.all_list (general_tag task) (all_list_tag task)
          (tags ts) alls v.sched.ready all new.apart in
      joined-IsRunning k ts task v new.alive new.other task-Absent
        (started kernel_thread priority func arg) both.0 refl refl
        (λ t ne. (ground arith, ground arith, ground arith, ground arith))
        (ground arith, ground arith, ground arith, ground arith, ground arith, ground arith) refl
        v.sched.tag_free v.sched.off

  -- `threadStart` with a free page for the control block and a priority from 1 to 255 ends: the new
  -- thread waits behind the others in the ready list with all of its ticks, and is behind the
  -- others in the list of all threads; the current thread runs on.
  pub thread_start_lem :
      (kernel_thread priority func arg : ℕ)
      → 0 < priority
      → priority < 2 ^ 8
      → (k' : Kernel) × (thread_start fuel k pools kernel_thread name priority func arg
          ≡ ok (task, k'))
        × IsRunning k' (ts ++ task ∷ [])
        × IsList k'.links k'.all_list (alls ++ all_list_tag task ∷ [])
        × (k'.current ≡ k.current)
        × (k'.tasks.ticks task ≡ priority)
  unfolding thread_start thread_init thread_create allocate_pid ready_append all_append
  thread_start_lem kernel_thread priority func arg pos small =
      let w = v.sched in
      let links1 = list_append k.links k.ready_list (general_tag task) in
      let pid = spin_wait-free fuel {b = k.pid_lock} (omega arith) pid_free in
      let ready = spin_wait-free fuel {b = k.ready_lock} (omega arith) w.ready_free in
      let alls_free = spin_wait-free fuel {b = k.all_lock} (omega arith) all_free in
      let no_main : (task == k.main_thread) ≡ false = let ne = new.no_main in ground arith in
      let few : length (tags ts) < fuel = rw (length-tags ts) enough in
      let walk = list_exist_lem (tags ts) w.ready fuel few (general_tag task) in
      let none_there = Absent-member (general_tag task) (tags ts) fresh.1.1.1 in
      let kept_all =
        second_kept k.links k.ready_list k.all_list (general_tag task) (all_list_tag task) (tags ts)
          alls w.ready all new.apart in
      let walk' = list_exist_lem alls kept_all fuel enough' (all_list_tag task) in
      let none_there' = Absent-member (all_list_tag task) alls fresh_all.1.1.1 in
      let both =
        both_appended k.links k.ready_list k.all_list (general_tag task) (all_list_tag task)
          (tags ts) alls w.ready all new.apart in
      (
        started kernel_thread priority func arg,
        rw (page, copied, pid, no_main, ready, walk, none_there, alls_free, walk', none_there')
            refl,
        started-IsRunning kernel_thread priority func arg pos small,
        both.1,
        refl,
        ground arith,
      )
