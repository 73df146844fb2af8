-- ===== src/Startup/Tests.antt =====
-- `initAll` of kernel/init.c on a machine with 32 MB, and the theorem there.
use holo_os.Base.{◌+◌, ◌≡◌, inl, inr, refl, false, true, ◌==◌, if◌then◌else◌, none, [], ◌∷◌, arith}
use holo_os.Base.Memory.{Mem}
use holo_os.Base.Run.{ok}
use holo_os.Console.{console_init}
use holo_os.Interrupt.{intr_off, intr_get_status}
use holo_os.Interrupt.Flag.{status_of_flag}
use holo_os.Ioqueue.Waiting.{Shared}
use holo_os.Memory.Pool.{pools_of}
use holo_os.Startup.{Addresses, Machine, init_all}
use holo_os.Startup.Booted.{Loaded, Booted, init_all_lem}
use holo_os.Thread.{Tasks, Kernel, task_ready}

-- The string "main" at 0xc0008000, the lists' heads in the kernel's data, the thread at 0xc009f000.
abbrev bytes : Mem
bytes a =
    if a == 0xc0008000
    then 109
    else if a == 0xc0008001
    then 97
    else if a == 0xc0008002
    then 105
    else if a == 0xc0008003
    then 110
    else 0

abbrev tasks : Tasks
tasks = record {
  self_kstack = λ t. 0;
  pid = λ t. 0;
  status = λ t. task_ready;
  priority = λ t. 0;
  ticks = λ t. 0;
  elapsed_ticks = λ t. 0;
  page_dir = λ t. 0;
  user_vaddr = λ t. record { vaddr_start = 0; vaddr_bitmap = record { bits = 0; size = 0 } };
  u_block_desc = λ t. [];
  stack_magic = λ t. 0;
}

abbrev kernel : Kernel
kernel = record {
  store = record { bytes = bytes; words = λ a. if a == 0xb06 then 0x2000000 else 0 };
  links = record { prev = λ a. 0; next = λ a. 0 };
  tasks = tasks;
  ready_list = 0xc0009000;
  all_list = 0xc0009010;
  ready_lock = true;
  all_lock = false;
  tag_lock = false;
  pid_lock = false;
  thread_tag = 0;
  next_pid = 0;
  main_thread = 0;
  current = 0xc009f000;
  eflags = 2;
  cr3 = 0x100000;
  esp0 = 0;
  ticks = 0;
}

abbrev addresses : Addresses
addresses = record {
  intr_entry = λ i. 0xc0003000 + i;
  syscall_handler = 0xc0003200;
  general_intr_handler = 0xc0003300;
  intr_keyboard_handler = 0xc0003400;
  intr_timer_handler = 0xc0003500;
  kernel_thread = 0xc0003600;
  start_process = 0xc0003700;
  unknown = 0xc0008100;
  first_names = [];
  last_names = [];
  main_name = 0xc0008000;
  k_block_descs = 0xc000a000;
  idt = 0xc000b000;
  tss = 0xc000c000;
}

abbrev queue : Shared
queue = record {
  ring = record { buf = λ a. 0; head = 1; tail = 2 };
  not_empty = [];
  not_full = [];
  woken = [];
}

abbrev machine : Machine
machine = record {
  kernel = kernel;
  pools = pools_of 0;
  k_block_descs = [];
  idt = λ i. record {
    func_offset_low_word = 0;
    selector = 0;
    d_count = 0;
    attribute = 0;
    func_offset_high_word = 0;
  };
  idtr = 0;
  handlers = record { idt_table = λ a. 0; intr_name = λ a. 0 };
  ports = [];
  console = console_init;
  keyboard_buf = queue;
  tss = record { esp0 = 0; ss0 = 0; io_base = 0 };
  gdt = λ i. record {
    limit_low_word = 0;
    base_low_word = 0;
    base_mid_byte = 0;
    attr_low_byte = 0;
    limit_attr_high_byte = 0;
    base_high_byte = 0;
  };
  syscall_table = λ i. none;
}

flags_off : intr_get_status 2 ≡ intr_off
flags_off = status_of_flag intr_off 2 refl

machine-Loaded : Loaded addresses machine (109 ∷ 97 ∷ 105 ∷ 110 ∷ [])
machine-Loaded = record {
  enough = omega arith;
  at_most = omega arith;
  apart = omega arith;
  alive = omega arith;
  off = flags_off;
  name = ground arith;
  name_set = omega arith;
  name_out = inl (omega arith);
  name_copy = inr (omega arith);
}

init_all_lem_example :
    (m' : Machine) × (init_all 5 addresses machine ≡ ok m') × Booted addresses machine m'
init_all_lem_example =
    init_all_lem 5 addresses machine (109 ∷ 97 ∷ 105 ∷ 110 ∷ []) (omega arith) (omega arith)
      machine-Loaded
