-- ===== src/Thread/Boot.antt =====
-- `threadSupportInit` of kernel/thread.c: the state from which threads are scheduled.
use holo_os.Base.{ℕ, ◌+◌, ◌%◌, ◌^◌, ◌<◌, ◌≡◌, ◌≢◌, refl, ◌∙◌, true, false, ◌==◌, [], ◌∷◌, arith}
use holo_os.Base.Memory.{Mem, update}
use holo_os.Base.Run.{ok}
use holo_os.CString.Text.{strcpy}
use holo_os.Interrupt.{intr_off, intr_get_status}
use holo_os.LinkedList.{Links, tail, list_init, list_append}
use holo_os.LinkedList.Distinct.{Distinct}
use holo_os.LinkedList.Segment.{IsList}
use holo_os.LinkedList.Sequence.{list_init_lem, list_append_lem}
use holo_os.LinkedList.Walk.{list_exist_lem}
use holo_os.Memory.Pool.{null}
use holo_os.Thread.{
  task_running, stack_magic_value, name_offset, general_tag, all_list_tag, Kernel, set,
  allocate_pid, all_append, thread_init, make_main_thread, thread_support_init,
}
use holo_os.Thread.Ready.{spin_wait-free}
use holo_os.Thread.Turns.{IsRunning}

-- The heads of the two lists and the two tags of the current thread are apart.
abbrev pub IsBoot : Kernel → Type 0
IsBoot k = Distinct (
    null
    ∷ k.ready_list
    ∷ tail k.ready_list
    ∷ k.all_list
    ∷ tail k.all_list
    ∷ general_tag k.current
    ∷ all_list_tag k.current
    ∷ [])

module _ (k : Kernel) (apart : IsBoot k) (alive : k.current ≢ null) where
  abbrev lists : Links
  lists = list_init (list_init k.links k.ready_list) k.all_list

  abbrev joined : Links
  joined = list_append lists k.all_list (all_list_tag k.current)

  all_empty : IsList lists k.all_list []
  all_empty = (list_init_lem (list_init k.links k.ready_list) k.all_list (omega arith)).0

  added : IsList joined k.all_list (all_list_tag k.current ∷ [])
  added = (list_append_lem [] (all_list_tag k.current) all_empty (omega arith)).0

  -- The list of ready threads is empty, and stays so when the other is made and the thread is put in it.
  ready_empty : IsList joined k.ready_list []
  ready_empty =
      let (made, _) = list_init_lem k.links k.ready_list (omega arith) in
      let (_, keep) = list_init_lem (list_init k.links k.ready_list) k.all_list (omega arith) in
      let (_, keep') = list_append_lem [] (all_list_tag k.current) all_empty (omega arith) in
      let r = k.ready_list in
      record {
        chain = (
          (keep' r (omega arith)).0 ∙ (keep r (omega arith)).0 ∙ made.chain.0,
          (keep' (tail r) (omega arith)).1 ∙ (keep (tail r) (omega arith)).1 ∙ made.chain.1,
        );
        apart = made.apart;
      }

  abbrev booted : Mem → Kernel
  booted bytes = record k {
    store = record k.store { bytes = bytes };
    links = joined;
    tasks = record k.tasks {
      status = set k.tasks.status k.current task_running;
      pid = update k.tasks.pid k.current ((k.next_pid + 1) % 2 ^ 16);
      priority = update k.tasks.priority k.current 31;
      self_kstack = update k.tasks.self_kstack k.current ((k.current + 4096) % 2 ^ 32);
      ticks = update k.tasks.ticks k.current 31;
      elapsed_ticks = update k.tasks.elapsed_ticks k.current 0;
      page_dir = update k.tasks.page_dir k.current null;
      stack_magic = update k.tasks.stack_magic k.current stack_magic_value;
    };
    ready_lock = false;
    all_lock = false;
    tag_lock = false;
    pid_lock = false;
    next_pid = (k.next_pid + 1) % 2 ^ 16;
    main_thread = k.current;
  }

  module _ (fuel name : ℕ) (out : ℕ × Mem)
      (copied : strcpy fuel k.store.bytes (k.current + name_offset) name ≡ ok out)
      (enough : 1 < fuel) (off : intr_get_status k.eflags ≡ intr_off) where
    -- From `threadSupportInit` on, which runs with interrupts off, the current thread runs with 31
    -- ticks, no thread waits, and the list of all threads holds it alone.
    pub thread_support_init_lem :
        (k' : Kernel) × (thread_support_init fuel k name ≡ ok k')
        × IsRunning k' []
        × IsList k'.links k'.all_list (all_list_tag k.current ∷ [])
        × (k'.tasks.ticks k'.current ≡ 31)
    unfolding thread_support_init make_main_thread thread_init allocate_pid all_append
    thread_support_init_lem =
        let free = spin_wait-free fuel {b = false} (omega arith) refl in
        let walk = list_exist_lem [] all_empty fuel (omega arith) (all_list_tag k.current) in
        let me : (k.current == k.current) ≡ true = ground arith in
        (
          booted out.1,
          rw (copied, free, free, walk, me) refl,
          record {
            sched = record {
              ready = ready_empty;
              waiting = tt;
              not_null = alive;
              cur_tag = omega arith;
              cur_out = λ e. ground arith;
              ready_free = refl;
              tag_free = refl;
              off = off;
            };
            run = ground arith;
            cur_healthy = record {
              magic = ground arith;
              priority_pos = ground arith;
              priority_fits = ground arith;
              ticks_pos = ground arith;
              ticks_fit = ground arith;
            };
            healthy = tt;
          },
          added,
          ground arith,
        )
