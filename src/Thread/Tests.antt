-- ===== src/Thread/Tests.antt =====
-- Three threads of kernel/thread.c and the theorems there: 0x10000 runs, and 0x20000 and 0x30000
-- wait.
use holo_os.Base.{
  ℕ, ◌+◌, ◌≡◌, refl, inr, sym, subst, true, false, ◌==◌, if◌then◌else◌, [], ◌∷◌, arith,
}
use holo_os.Base.Run.{ok, out_of_fuel, ◌>>=◌}
use holo_os.Interrupt.{intr_off, intr_get_status}
use holo_os.Interrupt.Flag.{status_of_flag}
use holo_os.LinkedList.{Links, list_init}
use holo_os.Memory.Pool.{VirtualAddr}
use holo_os.Thread.{
  TaskStatus, task_running, task_ready, task_blocked, stack_magic_value, general_tag, Tasks, Kernel,
  schedule, thread_block, thread_unblock, intr_timer_handler, thread_support_init, all_list_tag,
}
use holo_os.Thread.Ready.{IsSched}
use holo_os.Thread.Spin.{intr_timer_handler-stuck}
use holo_os.Thread.Switch.{Scheduled, schedule_lem}
use holo_os.Thread.Boot.{thread_support_init_lem}
use holo_os.CString.Text.{strcpy}
use holo_os.CString.Text.Copy.{strcpy_lem}
use holo_os.Base.Memory.{Mem}
use holo_os.LinkedList.Segment.{IsList}
use holo_os.Thread.Turns.{IsHealthy, IsRunning, interrupts, wait_lem}
use holo_os.Thread.Unblock.{masked, masked-off, blocks, unblock-block}

abbrev pub first : ℕ
first = 0x10000

abbrev pub second : ℕ
second = 0x20000

abbrev third : ℕ
third = 0x30000

abbrev statuses : ℕ → TaskStatus
statuses t = if t == first then task_running else task_ready

abbrev space : VirtualAddr
space = record { vaddr_start = 0; vaddr_bitmap = record { bits = 0; size = 0 } }

abbrev pub tasks : Tasks
tasks = record {
  self_kstack = λ t. t + 4096;
  pid = λ t. 0;
  status = statuses;
  priority = λ t. 3;
  ticks = λ t. 2;
  elapsed_ticks = λ t. 0;
  page_dir = λ t. 0;
  user_vaddr = λ t. space;
  u_block_desc = λ t. [];
  stack_magic = λ t. stack_magic_value;
}

-- The list at 1000 with the tags of the two that wait.
abbrev links : Links
links = record {
  next = λ a.
      if a == 1000
      then general_tag second
      else if a == general_tag second
      then general_tag third
      else 1008;
  prev = λ a.
      if a == 1008
      then general_tag third
      else if a == general_tag third
      then general_tag second
      else 1000;
}

flags_off : intr_get_status 2 ≡ intr_off
flags_off = status_of_flag intr_off 2 refl

abbrev pub kernel : Kernel
kernel = record {
  store = record { bytes = λ a. 0; words = λ a. 0 };
  links = links;
  tasks = tasks;
  ready_list = 1000;
  all_list = 2000;
  ready_lock = false;
  all_lock = false;
  tag_lock = false;
  pid_lock = false;
  thread_tag = 0;
  next_pid = 3;
  main_thread = first;
  current = first;
  eflags = 2;
  cr3 = 0x100000;
  esp0 = 0;
  ticks = 0;
}

kernel-IsSched : IsSched kernel (second ∷ third ∷ [])
kernel-IsSched = record {
  ready = record { chain = (refl, refl, (refl, refl, (refl, refl))); apart = omega arith };
  waiting = ((refl, omega arith), ((refl, omega arith), tt));
  not_null = omega arith;
  cur_tag = omega arith;
  cur_out = λ e. cc;
  ready_free = refl;
  tag_free = refl;
  off = flags_off;
}

healthy : (t : ℕ) → IsHealthy kernel t
healthy t = record {
  magic = refl;
  priority_pos = omega arith;
  priority_fits = omega arith;
  ticks_pos = omega arith;
  ticks_fit = omega arith;
}

kernel-IsRunning : IsRunning kernel (second ∷ third ∷ [])
kernel-IsRunning = record {
  sched = kernel-IsSched;
  run = refl;
  cur_healthy = healthy first;
  healthy = (healthy second, (healthy third, tt));
}

schedule_lem_example : Scheduled kernel (second ∷ third ∷ []) (schedule 5 kernel)
schedule_lem_example = schedule_lem kernel 5 (second ∷ third ∷ []) kernel-IsSched (omega arith)

wait_lem_example :
    (k' : Kernel) × (interrupts 4 5 kernel ≡ ok k')
    × (k'.current ≡ third)
    × IsRunning k' (first ∷ second ∷ [])
wait_lem_example = wait_lem (second ∷ []) third [] 5 kernel kernel-IsRunning (omega arith)

masked-IsSched : IsSched (masked kernel) (second ∷ third ∷ [])
masked-IsSched =
    subst (λ k. IsSched k (second ∷ third ∷ [])) (sym (masked-off kernel flags_off)) kernel-IsSched

unblock-block_example :
    (k2 : Kernel) × ((thread_block 5 kernel task_blocked >>= λ r. thread_unblock 5 r.1 first)
      ≡ ok k2)
    × (k2.current ≡ second)
    × IsSched k2 (first ∷ third ∷ [])
unblock-block_example =
    unblock-block kernel 5 task_blocked second (third ∷ []) masked-IsSched (omega arith)
      (blocks refl)

-- The last tick of a thread that holds the lock of the ready list.
abbrev held : Kernel
held = record kernel { ready_lock = true; tasks = record tasks { ticks = λ t. 1 } }

intr_timer_handler-stuck_example : intr_timer_handler 100 held ≡ out_of_fuel
intr_timer_handler-stuck_example = intr_timer_handler-stuck held 100 refl flags_off refl refl

-- The string "ma" at 500, and nothing initialised.
abbrev name_bytes : Mem
name_bytes = λ a. if a == 500 then 109 else if a == 501 then 97 else 0

abbrev raw : Kernel
raw = record kernel { store = record { bytes = name_bytes; words = λ a. 0 }; ready_lock = true }

name_copied : (out : ℕ × Mem) × (strcpy 5 name_bytes (first + 12) 500 ≡ ok out)
name_copied = (
  _,
  strcpy_lem 5 name_bytes (first + 12) 500 (109 ∷ 97 ∷ []) (omega arith) (omega arith) (omega arith)
      (refl, omega arith, (refl, omega arith, refl)) (inr (omega arith)),
)

thread_support_init_lem_example :
    (k' : Kernel) × (thread_support_init 5 raw 500 ≡ ok k')
    × IsRunning k' []
    × IsList k'.links k'.all_list (all_list_tag first ∷ [])
    × (k'.tasks.ticks k'.current ≡ 31)
thread_support_init_lem_example =
    thread_support_init_lem raw (omega arith) (omega arith) 5 500 name_copied.0 name_copied.1
      (omega arith) flags_off

-- The kernel with a lock whose list of waiters is empty, at 3000.
abbrev at_lock : Kernel
unfolding list_init
at_lock = record kernel { links = list_init kernel.links 3000 }
